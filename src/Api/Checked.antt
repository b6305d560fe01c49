-- ===== src/Api/Checked.antt =====
-- What a write of the API has passed before it reaches the store.
use pve_meta.Shared.{String, Bool, true, false, not, ◌&&◌, List, [], Eq, ◌≡◌, ◌⊎◌, refl, ap}
use pve_meta.Json.{Value}
use pve_meta.DocId.{DocId}
use pve_meta.Error.{Result, ok, err}
use pve_meta.Format.Texts.{Libraries, dump}
use pve_meta.Json.Numbers.{Numbers}
use pve_meta.Model.{lint}
use pve_meta.Patch.{Touched}
use pve_meta.Registry.{PrefixDef}
use pve_meta.Registry.Parse.{RawPrefixDef}
use pve_meta.Store.{MetaStore, World, disk_format, check_precondition}
use pve_meta.Store.Contents.{IsMet, check_precondition-IsMet}
use pve_meta.Api.{
  ApiResult, done, refused, from_core, parse_id, Stored, check_repairable, plan_write,
  authorize_write, check_enforced, ◌>>=◌,
}
use pve_meta.Api.Gates.{plan_write-lint}
use pve_meta.Api.Wire.{
  CallerAcl, parse_view, parse_view_format, parse_mode, parse_payload, check_registry_shape,
}
use pve_meta.Api.Plan.{PutRequest, Plan, plan_put, stored_at, checked_plan, mutate, unless}

pub bind_done :
    {A B : Type 0} (r : ApiResult A) (f : A → ApiResult B) (b : B)
    → (r >>= f) ≡ done b
    → (a : A) × (r ≡ done a) × (f a ≡ done b)
bind_done (done a) f b h = (a, refl, h)
bind_done (refused e) f b h = absurd (cc h)

pub done_inj : {A : Type 0} (a b : A) → done a ≡ done b → a ≡ b
done_inj a b h = cc

pub authorized : (write : Bool) (u : Unit) → authorize_write write ≡ done u → write ≡ true
unfolding authorize_write
authorized true u h = refl
authorized false u h = absurd (cc h)

pub from_core_done : {A : Type 0} (r : Result A) (a : A) → from_core r ≡ done a → r ≡ ok a
unfolding from_core
from_core_done (ok b) a h = ap Result.ok (done_inj b a h)
from_core_done (err e) a h = absurd (cc h)

module _ {N F B : Type 0} (numbers : Numbers N F) (libs : Libraries N B)
    (decode : Value N → String ⊎ RawPrefixDef N) (store : MetaStore) ⦃e : Eq N⦄ where
  -- what a plan has passed for a document that is stored so
  abbrev pub IsChecked : List (PrefixDef N) → Bool → Plan N → Type 0
  IsChecked prefixes force plan =
      (lint plan.planned ≡ [])
      × (plan.text ≡ dump libs disk_format plan.planned)
      × (check_registry_shape numbers libs decode plan.doc_id plan.text ≡ done tt)
      × (unless force (
            check_enforced numbers prefixes plan.doc_id plan.stored.value plan.planned plan.touched)
          ≡ done tt)

  checked_plan-IsChecked :
      (prefixes : List (PrefixDef N)) (force : Bool) (id : DocId) (stored : Stored N)
      (keep_notes : Bool) (mutation : Value N → Value N × ApiResult (List Touched)) (plan : Plan N)
      → checked_plan numbers libs decode store prefixes force id stored
          (plan_write stored.value keep_notes mutation)
        ≡ done plan
      → (plan.doc_id ≡ id) × (plan.stored ≡ stored) × IsChecked prefixes force plan
  unfolding checked_plan
  checked_plan-IsChecked prefixes force id stored keep_notes mutation plan h =
      let answer = plan_write stored.value keep_notes mutation in
      let (touched, planned_eq, h₁) = bind_done answer.1 _ plan h in
      let (clean, _, _) = plan_write-lint stored.value keep_notes mutation touched planned_eq in
      let (_, shaped, h₂) =
        bind_done (check_registry_shape numbers libs decode id (dump libs disk_format answer.0)) _
          plan h₁ in
      let (_, enforced, h₃) =
        bind_done (unless force (check_enforced numbers prefixes id stored.value answer.0 touched))
          _ plan h₂ in
      rw (← done_inj _ plan h₃) (refl, refl, (clean, refl, shaped, enforced))

  -- What is planned for a write comes from a request that may write, for the document it names as it
  -- is stored; if the request expects a digest, then the document's digest has been found and is that
  -- one, or there is no document and the request expects the empty one; the planned
  -- document passes the lint, its text is the canonical one and passes the gate of a registry
  -- document, and, unless the request forces it, the planned document passes the gate of the
  -- enforcing schemas.
  pub plan_put-IsChecked :
      (w : World B) (prefixes : List (PrefixDef N)) (req : PutRequest) (acl : CallerAcl)
      (plan : Plan N)
      → plan_put numbers libs decode store w prefixes req acl ≡ done plan
      → (acl.write ≡ true)
        × (parse_id req.id ≡ done plan.doc_id)
        × IsMet libs store w plan.doc_id req.digest
        × (stored_at numbers libs decode store w plan.doc_id ≡ done plan.stored)
        × IsChecked prefixes req.force plan
  unfolding plan_put
  plan_put-IsChecked w prefixes req acl plan h =
      let (id, id_eq, h₁) = bind_done (parse_id req.id) _ plan h in
      let (format, _, h₂) = bind_done (parse_view_format req.format_name) _ plan h₁ in
      let (view_path, _, h₃) = bind_done (parse_view req.view) _ plan h₂ in
      let (u, allowed, h₄) = bind_done (authorize_write acl.write) _ plan h₃ in
      let (is_merge, _, h₅) = bind_done (parse_mode req.mode) _ plan h₄ in
      let (payload, _, h₆) = bind_done (parse_payload libs is_merge req.payload format) _ plan h₅ in
      let (_, expected, h₇) =
        bind_done (from_core (check_precondition libs store w id req.digest)) _ plan h₆ in
      let (stored, stored_eq, h₈) =
        bind_done (stored_at numbers libs decode store w id) _ plan h₇ in
      let (_, repairable, h₉) = bind_done (check_repairable stored view_path is_merge) _ plan h₈ in
      let (same_id, same_stored, checks) =
        checked_plan-IsChecked prefixes req.force id stored (not is_merge && not req.comments)
          (mutate is_merge (not is_merge && not req.comments) view_path payload) plan h₉ in
      (
        authorized acl.write u allowed,
        rw same_id id_eq,
        rw same_id
            (check_precondition-IsMet libs store w id req.digest (from_core_done _ tt expected)),
        rw (same_id, same_stored) stored_eq,
        checks,
      )
