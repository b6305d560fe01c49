-- ===== src/Api/Removable.antt =====
-- What a removal of the API (crates/pve-meta-core/src/api.rs) has passed before it changes the store.
use pve_meta.Shared.{
  String, Bool, true, false, Option, none, List, [], ◌∷◌, is_empty, Eq, ◌≡◌, ◌⊎◌, inl, inr, refl,
  Bool-cases, Option-cases,
}
use pve_meta.Json.{Value}
use pve_meta.DocPath.{DocPath, is_root}
use pve_meta.DocId.{DocId}
use pve_meta.Format.Texts.{Libraries}
use pve_meta.Json.Numbers.{Numbers}
use pve_meta.Model.{lint}
use pve_meta.Patch.{Touched}
use pve_meta.Registry.Parse.{RawPrefixDef}
use pve_meta.Store.{MetaStore, World, check_precondition, has_own_file}
use pve_meta.Store.Contents.{IsMet, check_precondition-IsMet}
use pve_meta.Api.{
  ApiResult, done, from_core, parse_id, Stored, check_repairable, plan_write, authorize_write,
}
use pve_meta.Api.Gates.{plan_write-lint}
use pve_meta.Api.Wire.{CallerAcl, parse_view}
use pve_meta.Api.Plan.{stored_at, removal}
use pve_meta.Api.Removals.{Removal, plan_delete, check_own_file, planned_removal}
use pve_meta.Api.Checked.{bind_done, done_inj, authorized, from_core_done}

nothing_at_root : (path : DocPath) → is_root path ≡ true → path.segments ≡ []
unfolding is_root
nothing_at_root path h =
    elim path.segments as (λ ss. is_empty ss ≡ true → ss ≡ []) [
      | [] ↦ λ _. refl
      | s ∷ ss ↦ λ q. absurd (cc q)
    ]
      h

module _ {N : Type 0} where
  -- A document that can be read back, or else the whole of it.
  abbrev pub IsRepairable : Stored N → DocPath → Type 0
  IsRepairable stored view_path = (stored.unrecoverable ≡ none) ⊎ (view_path.segments ≡ [])

  check_repairable-IsRepairable :
      (stored : Stored N) (view_path : DocPath) (is_merge : Bool)
      → check_repairable stored view_path is_merge ≡ done tt
      → IsRepairable stored view_path
  unfolding check_repairable
  check_repairable-IsRepairable stored view_path is_merge h =
      elim (Option-cases stored.unrecoverable) [
        | inl readable ↦ inl readable
        | inr (reason, broken) ↦ elim (Bool-cases (is_root view_path)) [
          | inl whole ↦ inr (nothing_at_root view_path whole)
          | inr part ↦ absurd (cc (rw (broken, part) at h))
        ]
      ]

  IsRepairable-same :
      {stored stored' : Stored N} {view_path view_path' : DocPath}
      → stored' ≡ stored
      → view_path' ≡ view_path
      → IsRepairable stored view_path
      → IsRepairable stored' view_path'
  IsRepairable-same p q h = rw (p, q) h

module _ {N F B : Type 0} (numbers : Numbers N F) (libs : Libraries N B)
    (decode : Value N → String ⊎ RawPrefixDef N) (store : MetaStore) ⦃e : Eq N⦄ where
  planned_removal-is :
      (id : DocId) (view_path : DocPath) (stored : Stored N)
      (mutation : Value N → Value N × ApiResult (List Touched))
      (r : Removal numbers libs decode store)
      → planned_removal numbers libs decode store id view_path stored
          (plan_write stored.value false mutation)
        ≡ done r
      → (r.doc_id ≡ id) × (r.view_path ≡ view_path) × (r.stored ≡ stored) × (lint r.planned ≡ [])
  unfolding planned_removal
  planned_removal-is id view_path stored mutation r h =
      let answer = plan_write stored.value false mutation in
      let (touched, planned_eq, h₁) = bind_done answer.1 _ r h in
      let (clean, _, _) = plan_write-lint stored.value false mutation touched planned_eq in
      rw (← done_inj _ r h₁) (refl, refl, refl, clean)

  -- What is planned for a removal comes from a request that may write, for the document and the view
  -- it names, the document as it is stored; if the request expects a digest, then the document's
  -- digest has been found and is that one, or there is no document and the request expects the empty
  -- one; the document can be read back, or the view is the whole of it; and what the removal leaves
  -- passes the lint.
  pub plan_delete-IsChecked :
      (w : World B) (id : String) (view digest : Option String) (acl : CallerAcl)
      (r : Removal numbers libs decode store)
      → plan_delete numbers libs decode store w id view digest acl ≡ done r
      → (acl.write ≡ true)
        × (parse_id id ≡ done r.doc_id)
        × (parse_view view ≡ done r.view_path)
        × IsMet libs store w r.doc_id digest
        × (stored_at numbers libs decode store w r.doc_id ≡ done r.stored)
        × IsRepairable r.stored r.view_path
        × (lint r.planned ≡ [])
  unfolding plan_delete
  plan_delete-IsChecked w id view digest acl r h =
      let (doc_id, id_eq, h₁) = bind_done (parse_id id) _ r h in
      let (view_path, view_eq, h₂) = bind_done (parse_view view) _ r h₁ in
      let (u, allowed, h₃) = bind_done (authorize_write acl.write) _ r h₂ in
      let (_, expected, h₄) =
        bind_done (from_core (check_precondition libs store w doc_id digest)) _ r h₃ in
      let (stored, stored_eq, h₅) =
        bind_done (stored_at numbers libs decode store w doc_id) _ r h₄ in
      let (_, repairable, h₆) = bind_done (check_repairable stored view_path false) _ r h₅ in
      let (own_file, _, h₇) = bind_done (from_core (has_own_file libs store w doc_id)) _ r h₆ in
      let (_, _, h₈) =
        bind_done (check_own_file numbers libs decode store doc_id own_file view_path stored) _ r
          h₇ in
      let (same_id, same_view, same_stored, clean) =
        planned_removal-is doc_id view_path stored (removal view_path) r h₈ in
      (
        authorized acl.write u allowed,
        rw same_id id_eq,
        rw same_view view_eq,
        rw same_id
            (check_precondition-IsMet libs store w doc_id digest (from_core_done _ tt expected)),
        rw (same_id, same_stored) stored_eq,
        IsRepairable-same same_stored same_view
            (check_repairable-IsRepairable stored view_path false repairable),
        clean,
      )
