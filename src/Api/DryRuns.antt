-- ===== src/Api/DryRuns.antt =====
-- A dry run and the write that it stands for.
use pve_meta.Shared.{
  ℕ, String, Bool, true, false, ◌||◌, Option, List, if◌then◌else◌, Eq, ◌≡◌, ◌⊎◌, inl, inr, refl,
  sym, ap, ◌∙◌, Bool-cases,
}
use pve_meta.Json.{Value}
use pve_meta.DocId.{DocId, guest}
use pve_meta.Error.{Result, ok, err}
use pve_meta.Format.Texts.{
  Libraries, dump, normalize_trailing_newline, normalize_trailing_newline-dump,
}
use pve_meta.Json.Numbers.{Numbers}
use pve_meta.Registry.{PrefixDef}
use pve_meta.Registry.Parse.{RawPrefixDef}
use pve_meta.Store.{MetaStore, World, Document, disk_format}
use pve_meta.Store.Ops.{put_raw}
use pve_meta.Store.Contents.{accepted, put_raw-ok}
use pve_meta.Store.Progress.{fits_size}
use pve_meta.Patch
use pve_meta.Api.{ApiResult, done, refused, from_core, parse_id}
use pve_meta.Api.Wire.{CallerAcl, ApiPutResult}
use pve_meta.Api.Plan.{PutRequest, Plan, plan_put}
use pve_meta.Api.Checked.{done_inj, plan_put-IsChecked}
use pve_meta.Api.Handlers.{
  is_unchanged, put_result, written_digest, answered, unwritten, apply_put, after_plan,
  put_document,
}

module _ {N F B : Type 0} (numbers : Numbers N F) (libs : Libraries N B)
    (decode : Value N → String ⊎ RawPrefixDef N) (store : MetaStore) ⦃e : Eq N⦄ where
  written-ok :
      (answer : World B × Result (Document N)) (digest : String)
      → (written_digest numbers libs decode store answer).1 ≡ done digest
      → (d : Document N) × (answer.1 ≡ ok d) × (d.digest ≡ digest)
  unfolding written_digest from_core
  written-ok (w, ok d) digest h = (d, refl, done_inj _ _ h)
  written-ok (w, err x) digest h = absurd (cc h)

  -- A write that succeeds answers what a dry run answers for the same plan.
  unwritten-written :
      (w : World B) (v : ℕ) (plan : Plan N) (expected : Option String) (digest : String)
      → plan.text ≡ dump libs disk_format plan.planned
      → (written_digest numbers libs decode store
          (put_raw libs store w (guest v) plan.text expected)).1
        ≡ done digest
      → unwritten numbers libs decode store plan ≡ done digest
  unfolding unwritten from_core
  unwritten-written w v plan expected digest text_eq h =
      let (d, d_eq, digest_eq) =
        written-ok (put_raw libs store w (guest v) plan.text expected) digest h in
      let (value, acceptance, _, same) = put_raw-ok libs store w v plan.text expected d d_eq in
      let (_, _, _, fits, _) =
        accepted libs store w (guest v) (normalize_trailing_newline plan.text) expected value
          acceptance in
      let normal : normalize_trailing_newline plan.text ≡ plan.text =
        rw text_eq (normalize_trailing_newline-dump libs plan.planned) in
      let fits' = rw normal at fits in
      let same_digest : libs.sha256 (libs.bytes_of plan.text) ≡ digest =
        rw (← digest_eq, same, normal) in
      elim (Bool-cases (is_unchanged numbers libs decode store plan)) [
        | inl unchanged ↦ rw unchanged (ap done same_digest)
        | inr changed ↦ rw (changed, fits_size libs store _ fits') (ap done same_digest)
      ]

  answered-done :
      (view : Option String) (id : DocId) (touched : List Patch.Touched)
      (answer : World B × ApiResult String) (r : ApiPutResult)
      → (answered numbers libs decode store view id touched answer).1 ≡ done r
      → (digest : String) × (answer.1 ≡ done digest)
        × (put_result numbers libs decode store view id touched digest ≡ r)
  unfolding answered
  answered-done view id touched (w, done digest) r h = (digest, refl, done_inj _ _ h)
  answered-done view id touched (w, refused x) r h = absurd (cc h)

  unwritten_in :
      (b : Bool) (w : World B) (v : ℕ) (req : PutRequest) (plan : Plan N) (digest : String)
      → plan.doc_id ≡ guest v
      → plan.text ≡ dump libs disk_format plan.planned
      → (if b
          then (w, unwritten numbers libs decode store plan)
          else written_digest numbers libs decode store
              (put_raw libs store w plan.doc_id plan.text req.digest)).1
        ≡ done digest
      → unwritten numbers libs decode store plan ≡ done digest
  unwritten_in true w v req plan digest id_eq text_eq h = h
  unwritten_in false w v req plan digest id_eq text_eq h =
      unwritten-written w v plan req.digest digest text_eq (rw id_eq at h)

  apply_put-dry :
      (w : World B) (v : ℕ) (req : PutRequest) (plan : Plan N) (r : ApiPutResult)
      → plan.doc_id ≡ guest v
      → plan.text ≡ dump libs disk_format plan.planned
      → (apply_put numbers libs decode store w req plan).1 ≡ done r
      → apply_put numbers libs decode store w (record req { dry_run = true }) plan ≡ (w, done r)
  unfolding apply_put answered
  apply_put-dry w v req plan r id_eq text_eq h =
      let written =
        written_digest numbers libs decode store
          (put_raw libs store w plan.doc_id plan.text req.digest) in
      let (digest, digest_eq, r_eq) =
        answered-done req.view plan.doc_id plan.touched
          (if req.dry_run || is_unchanged numbers libs decode store plan
            then (w, unwritten numbers libs decode store plan)
            else written)
          r h in
      let dry =
        unwritten_in (req.dry_run || is_unchanged numbers libs decode store plan) w v req plan
          digest id_eq text_eq digest_eq in
      rw dry (ap (λ r. (w, done r)) r_eq)

  after_plan-dry :
      (w : World B) (v : ℕ) (req : PutRequest) (planned : ApiResult (Plan N)) (r : ApiPutResult)
      → ((plan : Plan N)
          → planned ≡ done plan
          → (plan.doc_id ≡ guest v) × (plan.text ≡ dump libs disk_format plan.planned))
      → (after_plan numbers libs decode store w req planned).1 ≡ done r
      → after_plan numbers libs decode store w (record req { dry_run = true }) planned ≡ (w, done r)
  unfolding after_plan
  after_plan-dry w v req (done plan) r facts h =
      let (id_eq, text_eq) = facts plan refl in apply_put-dry w v req plan r id_eq text_eq h
  after_plan-dry w v req (refused x) r facts h = absurd (cc h)

  -- If a write of a guest's document succeeds, then the same request as a dry run succeeds with the
  -- same answer, the digest included, and changes nothing.
  pub put_document-dry_run :
      (w : World B) (prefixes : List (PrefixDef N)) (req : PutRequest) (acl : CallerAcl) (v : ℕ)
      (r : ApiPutResult)
      → parse_id req.id ≡ done (guest v)
      → (put_document numbers libs decode store w prefixes req acl).1 ≡ done r
      → put_document numbers libs decode store w prefixes (record req { dry_run = true }) acl
        ≡ (w, done r)
  unfolding put_document plan_put
  put_document-dry_run w prefixes req acl v r id h =
      after_plan-dry w v req (plan_put numbers libs decode store w prefixes req acl) r
        (λ plan plan_eq.
          let (_, id_eq, _, _, checks) =
            plan_put-IsChecked numbers libs decode store w prefixes req acl plan plan_eq in
          (done_inj _ _ (sym id_eq ∙ id), checks.1))
        h
