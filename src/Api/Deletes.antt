-- ===== src/Api/Deletes.antt =====
-- What a deletion of the API does to the store.
use pve_meta.Shared.{
  ℕ, String, Bool, true, false, not, Option, none, List, is_empty, str_eq, if◌then◌else◌, Eq, ◌≡◌,
  ◌⊎◌, inl, inr, refl, sym, ◌∙◌,
}
use pve_meta.Json.{Value}
use pve_meta.DocPath.{DocPath, is_root}
use pve_meta.DocId.{DocId, guest}
use pve_meta.Error.{Result, ok, err}
use pve_meta.Format.Texts.{Libraries, dump, normalize_trailing_newline-dump}
use pve_meta.Json.Numbers.{Numbers}
use pve_meta.Patch.{Touched}
use pve_meta.Registry.Parse.{RawPrefixDef}
use pve_meta.Store.{MetaStore, World, disk_format, check_precondition, has_own_file}
use pve_meta.Store.Ops
use pve_meta.Store.Ops.{put_raw}
use pve_meta.Store.Spec.{Model, delete_op, set_doc, after, step, perform, model_of}
use pve_meta.Store.Refines.{model_of-perform}
use pve_meta.View.Descent.{is_ok}
use pve_meta.Api.{
  ApiResult, done, refused, from_core, parse_id, Stored, check_repairable, authorize_write,
}
use pve_meta.Api.Wire.{CallerAcl, parse_view, check_registry_shape}
use pve_meta.Api.Plan.{stored_at}
use pve_meta.Api.Checked.{bind_done, done_inj}
use pve_meta.Api.Effects.{is_done, with_text, put_raw-effect, digest_as, answered_as}
use pve_meta.Api.Handlers.{written_digest}
use pve_meta.Api.Removals.{
  Removal, plan_delete, planned_removal, check_own_file, apply_delete, removed_digest, shaped,
  after_removal, delete_document,
}

-- Nothing is changed, or the handler succeeds and leaves the one model for a deletion of the whole
-- document, and the other for one of a view.
abbrev pub IsOneOf : {B : Type 0} → Bool → Model B → Model B → Model B → Model B × Bool → Type 0
IsOneOf whole before without rewritten answer =
    (answer.0 ≡ before) ⊎ ((answer.1 ≡ true) × (answer.0 ≡ (if whole then without else rewritten)))

by_answer :
    {B : Type 0} (b whole : Bool) (m n o p : Model B)
    → m ≡ (if b then (if whole then n else p) else o)
    → IsOneOf whole o n p (m, b)
by_answer true whole m n o p h = inr (refl, h)
by_answer false whole m n o p h = inl h

module _ {N F B : Type 0} (numbers : Numbers N F) (libs : Libraries N B)
    (decode : Value N → String ⊎ RawPrefixDef N) (store : MetaStore) ⦃e : Eq N⦄ where
  planned_removal-id :
      (id : DocId) (view_path : DocPath) (stored : Stored N)
      (plan : Value N × ApiResult (List Touched)) (r : Removal numbers libs decode store)
      → planned_removal numbers libs decode store id view_path stored plan ≡ done r
      → r.doc_id ≡ id
  unfolding planned_removal
  planned_removal-id id view_path stored plan r h =
      let (touched, _, h₁) = bind_done plan.1 _ r h in rw (← done_inj _ r h₁) refl

  plan_delete-id :
      (w : World B) (id : String) (view digest : Option String) (acl : CallerAcl)
      (r : Removal numbers libs decode store)
      → plan_delete numbers libs decode store w id view digest acl ≡ done r
      → parse_id id ≡ done r.doc_id
  unfolding plan_delete
  plan_delete-id w id view digest acl r h =
      let (doc_id, id_eq, h₁) = bind_done (parse_id id) _ r h in
      let (view_path, _, h₂) = bind_done (parse_view view) _ r h₁ in
      let (_, _, h₃) = bind_done (authorize_write acl.write) _ r h₂ in
      let (_, _, h₄) =
        bind_done (from_core (check_precondition libs store w doc_id digest)) _ r h₃ in
      let (stored, _, h₅) = bind_done (stored_at numbers libs decode store w doc_id) _ r h₄ in
      let (_, _, h₆) = bind_done (check_repairable stored view_path false) _ r h₅ in
      let (own_file, _, h₇) = bind_done (from_core (has_own_file libs store w doc_id)) _ r h₆ in
      let (_, _, h₈) =
        bind_done (check_own_file numbers libs decode store doc_id own_file view_path stored) _ r
          h₇ in
      rw (planned_removal-id doc_id view_path stored _ r h₈) id_eq

  delete-effect :
      (w : World B) (v : ℕ)
      → model_of libs store (Ops.delete libs store w (guest v)).0 ≡ (
          if is_ok (Ops.delete libs store w (guest v)).1
          then set_doc v none (model_of libs store w)
          else model_of libs store w)
  unfolding perform step after
  delete-effect w v = model_of-perform libs store (delete_op v) w

  removed_as :
      (answer : World B × Result Bool)
      → ((removed_digest numbers libs decode store answer).0 ≡ answer.0)
        × (is_done (removed_digest numbers libs decode store answer).1 ≡ is_ok answer.1)
  unfolding removed_digest from_core
  removed_as (w, ok there) = (refl, refl)
  removed_as (w, err x) = (refl, refl)

  removed_outcome :
      (w : World B) (v : ℕ) (text : String)
      → IsOneOf true
          (model_of libs store w)
          (set_doc v none (model_of libs store w))
          (with_text numbers libs decode store w v text)
          (
            model_of libs store
                (removed_digest numbers libs decode store (Ops.delete libs store w (guest v))).0,
            is_done
                (removed_digest numbers libs decode store (Ops.delete libs store w (guest v))).1,
          )
  removed_outcome w v text =
      let (world, success) = removed_as (Ops.delete libs store w (guest v)) in
      rw (world, success)
        (by_answer _ true _ (set_doc v none (model_of libs store w)) (model_of libs store w)
          (with_text numbers libs decode store w v text) (delete-effect w v))

  written_outcome :
      (w : World B) (v : ℕ) (doc : Value N) (digest : Option String)
      → IsOneOf false
          (model_of libs store w)
          (set_doc v none (model_of libs store w))
          (with_text numbers libs decode store w v (dump libs disk_format doc))
          (
            model_of libs store
                (written_digest numbers libs decode store
                  (put_raw libs store w (guest v) (dump libs disk_format doc) digest)).0,
            is_done
                (written_digest numbers libs decode store
                  (put_raw libs store w (guest v) (dump libs disk_format doc) digest)).1,
          )
  written_outcome w v doc digest =
      let (world, success) =
        digest_as numbers libs decode store
          (put_raw libs store w (guest v) (dump libs disk_format doc) digest) in
      rw (world, success)
        (by_answer _ false _ (set_doc v none (model_of libs store w)) (model_of libs store w)
          (with_text numbers libs decode store w v (dump libs disk_format doc))
          (put_raw-effect numbers libs decode store w v (dump libs disk_format doc) digest
            (normalize_trailing_newline-dump libs doc)))

  -- what one of the four ways of a deletion leaves
  IsOutcome : World B → ℕ → String → Bool → World B × ApiResult String → Type 0
  IsOutcome w v text whole answer =
      IsOneOf whole (model_of libs store w) (set_doc v none (model_of libs store w))
        (with_text numbers libs decode store w v text)
        (model_of libs store answer.0, is_done answer.1)

  one_way :
      (w : World B) (v : ℕ) (text : String) (whole nothing there : Bool)
      (gone same rewritten none_there : World B × ApiResult String)
      → IsOutcome w v text true gone
      → IsOutcome w v text false same
      → IsOutcome w v text false rewritten
      → IsOutcome w v text false none_there
      → IsOutcome w v text whole (
          if whole then gone else if nothing then same else if there then rewritten else none_there)
  one_way w v text true nothing there gone same rewritten none_there h k l m = h
  one_way w v text false true there gone same rewritten none_there h k l m = k
  one_way w v text false false true gone same rewritten none_there h k l m = l
  one_way w v text false false false gone same rewritten none_there h k l m = m

  apply_delete-IsOutcome :
      (w : World B) (v : ℕ) (digest : Option String) (r : Removal numbers libs decode store)
      → r.doc_id ≡ guest v
      → IsOutcome w v
          (dump libs disk_format r.planned)
          (is_root r.view_path)
          (apply_delete numbers libs decode store w digest r)
  unfolding apply_delete check_registry_shape shaped
  apply_delete-IsOutcome w v digest r id_eq = rw id_eq (
      one_way w v (dump libs disk_format r.planned) (is_root r.view_path) (is_empty r.touched)
        (not (str_eq r.stored.digest "")) _ _ _ _
        (unfold IsOutcome in removed_outcome w v (dump libs disk_format r.planned))
        (unfold IsOutcome in inl refl) (unfold IsOutcome in written_outcome w v r.planned digest)
        (unfold IsOutcome in inl refl))

  after_removal-outcome :
      (w : World B) (v : ℕ) (view digest : Option String)
      (planned : ApiResult (Removal numbers libs decode store))
      → ((r : Removal numbers libs decode store) → planned ≡ done r → r.doc_id ≡ guest v)
      → (model_of libs store (after_removal numbers libs decode store w view digest planned).0
          ≡ model_of libs store w)
        ⊎ ((r : Removal numbers libs decode store) × (planned ≡ done r)
            × (is_done (after_removal numbers libs decode store w view digest planned).1 ≡ true)
            × (model_of libs store (after_removal numbers libs decode store w view digest planned).0
                ≡ (if is_root r.view_path
                    then set_doc v none (model_of libs store w)
                    else with_text numbers libs decode store w v
                        (dump libs disk_format r.planned))))
  unfolding after_removal IsOutcome
  after_removal-outcome w v view digest (refused x) id = inl refl
  after_removal-outcome w v view digest (done r) id =
      let (world, success) =
        answered_as numbers libs decode store view r.doc_id r.touched
          (apply_delete numbers libs decode store w digest r) in
      rw (world, success)
        (elim (apply_delete-IsOutcome w v digest r (id r refl)) [
          | inl same ↦ inl same
          | inr (success, left) ↦ inr (r, refl, success, left)
        ])

  -- A deletion in a guest's document leaves all documents and snapshots of guests as they are, or it
  -- succeeds and, without a view, removes that document, with one, puts the canonical text of the
  -- planned document in it, and changes nothing else.
  pub delete_document-effect :
      (w : World B) (v : ℕ) (id : String) (view digest : Option String) (acl : CallerAcl)
      → parse_id id ≡ done (guest v)
      → (model_of libs store (delete_document numbers libs decode store w id view digest acl).0
          ≡ model_of libs store w)
        ⊎ ((r : Removal numbers libs decode store) × (plan_delete numbers libs decode store w id
                view digest acl
              ≡ done r)
            × (is_done (delete_document numbers libs decode store w id view digest acl).1 ≡ true)
            × (model_of libs store
                  (delete_document numbers libs decode store w id view digest acl).0
                ≡ (if is_root r.view_path
                    then set_doc v none (model_of libs store w)
                    else with_text numbers libs decode store w v
                        (dump libs disk_format r.planned))))
  unfolding delete_document
  delete_document-effect w v id view digest acl id_eq =
      after_removal-outcome w v view digest
        (plan_delete numbers libs decode store w id view digest acl)
        (λ r planned. done_inj _ _ (sym (plan_delete-id w id view digest acl r planned) ∙ id_eq))
