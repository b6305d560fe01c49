-- ===== src/Api/Effects.antt =====
-- What a write of the API does to the store.
use pve_meta.Shared.{
  ℕ, String, Bool, true, false, ◌||◌, Option, some, List, if◌then◌else◌, Eq, ◌≡◌, ◌⊎◌, inl, inr,
  refl, sym, ap, ◌∙◌,
}
use pve_meta.Json.{Value}
use pve_meta.DocId.{DocId, guest}
use pve_meta.Disk.{regular}
use pve_meta.Error.{Result, ok, err}
use pve_meta.Format.Texts.{
  Libraries, dump, normalize_trailing_newline, normalize_trailing_newline-dump,
}
use pve_meta.Json.Numbers.{Numbers}
use pve_meta.Patch.{Touched}
use pve_meta.Registry.{PrefixDef}
use pve_meta.Registry.Parse.{RawPrefixDef}
use pve_meta.Store.{MetaStore, World, Document, disk_format}
use pve_meta.Store.Ops.{put_raw}
use pve_meta.Store.Spec.{Model, put_op, set_doc, after, step, perform, model_of}
use pve_meta.Store.Refines.{model_of-perform}
use pve_meta.View.Descent.{is_ok}
use pve_meta.Api.{ApiResult, done, refused, from_core, parse_id}
use pve_meta.Api.Wire.{CallerAcl}
use pve_meta.Api.Plan.{PutRequest, Plan, plan_put}
use pve_meta.Api.Checked.{done_inj, plan_put-IsChecked}
use pve_meta.Api.Handlers.{
  is_unchanged, written_digest, answered, unwritten, apply_put, after_plan, put_document,
}

abbrev pub is_done : {A : Type 0} → ApiResult A → Bool
is_done (done a) = true
is_done (refused x) = false

module _ {N F B : Type 0} (numbers : Numbers N F) (libs : Libraries N B)
    (decode : Value N → String ⊎ RawPrefixDef N) (store : MetaStore) ⦃e : Eq N⦄ where
  -- The documents and snapshots of the first world, with the text in a guest's document.
  abbrev pub with_text : World B → ℕ → String → Model B
  with_text w v text = set_doc v (some (regular (libs.bytes_of text) w.now)) (model_of libs store w)

  -- what a write leaves: nothing new, or, if it may and succeeds, the planned text
  abbrev pub IsEffect : World B → ℕ → PutRequest → Plan N → World B × Bool → Type 0
  IsEffect w v req plan answer =
      (model_of libs store answer.0 ≡ model_of libs store w)
      ⊎ ((req.dry_run ≡ false)
          × (answer.1 ≡ true)
          × (model_of libs store answer.0 ≡ with_text w v plan.text))

  pub put_raw-effect :
      (w : World B) (v : ℕ) (text : String) (expected : Option String)
      → normalize_trailing_newline text ≡ text
      → model_of libs store (put_raw libs store w (guest v) text expected).0 ≡ (
          if is_ok (put_raw libs store w (guest v) text expected).1
          then with_text w v text
          else model_of libs store w)
  unfolding perform step after
  put_raw-effect w v text expected normal =
      model_of-perform libs store (put_op v text expected) w ∙ rw normal

  pub answered_as :
      (view : Option String) (id : DocId) (touched : List Touched)
      (answer : World B × ApiResult String)
      → ((answered numbers libs decode store view id touched answer).0 ≡ answer.0)
        × (is_done (answered numbers libs decode store view id touched answer).1 ≡ is_done answer.1)
  unfolding answered
  answered_as view id touched (w, done digest) = (refl, refl)
  answered_as view id touched (w, refused x) = (refl, refl)

  pub digest_as :
      (answer : World B × Result (Document N))
      → ((written_digest numbers libs decode store answer).0 ≡ answer.0)
        × (is_done (written_digest numbers libs decode store answer).1 ≡ is_ok answer.1)
  unfolding written_digest from_core
  digest_as (w, ok d) = (refl, refl)
  digest_as (w, err x) = (refl, refl)

  by_success :
      (b : Bool) (req : PutRequest) (m n o : Model B)
      → req.dry_run ≡ false
      → m ≡ (if b then n else o)
      → (m ≡ o) ⊎ ((req.dry_run ≡ false) × (b ≡ true) × (m ≡ n))
  by_success true req m n o dry h = inr (dry, refl, h)
  by_success false req m n o dry h = inl h

  not_dry : (dry unchanged : Bool) → dry || unchanged ≡ false → dry ≡ false
  not_dry true unchanged h = absurd (cc h)
  not_dry false unchanged h = refl

  chosen :
      (b : Bool) (w : World B) (v : ℕ) (req : PutRequest) (plan : Plan N)
      → (b ≡ false → req.dry_run ≡ false)
      → normalize_trailing_newline plan.text ≡ plan.text
      → (answer : World B × ApiResult String)
      → answer ≡ (
          if b
          then (w, unwritten numbers libs decode store plan)
          else written_digest numbers libs decode store
              (put_raw libs store w (guest v) plan.text req.digest))
      → IsEffect w v req plan (answer.0, is_done answer.1)
  chosen true w v req plan dry normal answer h = inl (ap (λ a. model_of libs store a.0) h)
  chosen false w v req plan dry normal answer h =
      let (world, success) = digest_as (put_raw libs store w (guest v) plan.text req.digest) in
      by_success (is_done answer.1) req (model_of libs store answer.0) _ _ (dry refl)
        (rw (h, world, success) (put_raw-effect w v plan.text req.digest normal))

  apply_put-IsEffect :
      (w : World B) (v : ℕ) (req : PutRequest) (plan : Plan N)
      → plan.doc_id ≡ guest v
      → plan.text ≡ dump libs disk_format plan.planned
      → IsEffect w v req plan (
        (apply_put numbers libs decode store w req plan).0,
        is_done (apply_put numbers libs decode store w req plan).1,
      )
  unfolding apply_put
  apply_put-IsEffect w v req plan id_eq text_eq =
      let b = req.dry_run || is_unchanged numbers libs decode store plan in
      let answer =
        if b
        then (w, unwritten numbers libs decode store plan)
        else written_digest numbers libs decode store
            (put_raw libs store w plan.doc_id plan.text req.digest) in
      let (world, success) = answered_as req.view plan.doc_id plan.touched answer in
      rw (world, success)
        (chosen b w v req plan (not_dry req.dry_run _)
          (rw text_eq (normalize_trailing_newline-dump libs plan.planned)) answer (rw id_eq))

  after_plan-effect :
      (w : World B) (v : ℕ) (req : PutRequest) (planned : ApiResult (Plan N))
      → ((plan : Plan N)
          → planned ≡ done plan
          → (plan.doc_id ≡ guest v) × (plan.text ≡ dump libs disk_format plan.planned))
      → (model_of libs store (after_plan numbers libs decode store w req planned).0
          ≡ model_of libs store w)
        ⊎ ((plan : Plan N) × (planned ≡ done plan)
            × (req.dry_run ≡ false)
            × (is_done (after_plan numbers libs decode store w req planned).1 ≡ true)
            × (model_of libs store (after_plan numbers libs decode store w req planned).0
                ≡ with_text w v plan.text))
  unfolding after_plan
  after_plan-effect w v req (refused x) facts = inl refl
  after_plan-effect w v req (done plan) facts =
      let (id_eq, text_eq) = facts plan refl in
      elim (apply_put-IsEffect w v req plan id_eq text_eq) [
        | inl same ↦ inl same
        | inr (dry, success, world) ↦ inr (plan, refl, dry, success, world)
      ]

  -- A put on a guest's document leaves all documents and snapshots of guests as they are, or it
  -- succeeds, is no dry run, and puts the planned text in that document and changes nothing else.
  pub put_document-effect :
      (w : World B) (prefixes : List (PrefixDef N)) (req : PutRequest) (acl : CallerAcl) (v : ℕ)
      → parse_id req.id ≡ done (guest v)
      → (model_of libs store (put_document numbers libs decode store w prefixes req acl).0
          ≡ model_of libs store w)
        ⊎ ((plan : Plan N) × (plan_put numbers libs decode store w prefixes req acl ≡ done plan)
            × (req.dry_run ≡ false)
            × (is_done (put_document numbers libs decode store w prefixes req acl).1 ≡ true)
            × (model_of libs store (put_document numbers libs decode store w prefixes req acl).0
                ≡ with_text w v plan.text))
  unfolding put_document
  put_document-effect w prefixes req acl v id =
      after_plan-effect w v req (plan_put numbers libs decode store w prefixes req acl)
        (λ plan plan_eq.
          let (_, id_eq, _, _, checks) =
            plan_put-IsChecked numbers libs decode store w prefixes req acl plan plan_eq in
          (done_inj _ _ (sym id_eq ∙ id), checks.1))
