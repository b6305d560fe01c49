-- ===== src/Api/Handlers.antt =====
-- `put_document` (crates/pve-meta-core/src/api.rs), over the store.
use pve_meta.Shared.{
  String, Bool, false, not, ◌&&◌, ◌||◌, Option, none, some, List, is_empty, str_eq, if◌then◌else◌,
  is_some, Eq, ◌⊎◌,
}
use pve_meta.Json.{Value}
use pve_meta.DocId
use pve_meta.DocId.{DocId, guest, registry, noun}
use pve_meta.Error.{Result, ok, err}
use pve_meta.Format.Texts.{Libraries}
use pve_meta.Json.Numbers.{Numbers}
use pve_meta.Patch.{Touched}
use pve_meta.Registry.{PrefixDef}
use pve_meta.Registry.Parse.{RawPrefixDef}
use pve_meta.Store.{MetaStore, World, Document, check_size}
use pve_meta.Store.Ops.{put_raw}
use pve_meta.Api.{ApiResult, done, refused, from_core, ◌>>◌}
use pve_meta.Api.Wire.{CallerAcl, ApiPutResult, touched_out, view_out}
use pve_meta.Api.Plan.{PutRequest, Plan, plan_put}

module _ {N F B : Type 0} (numbers : Numbers N F) (libs : Libraries N B)
    (decode : Value N → String ⊎ RawPrefixDef N) (store : MetaStore) ⦃e : Eq N⦄ where
  -- whether a plan would leave the file as it is
  unfoldable pub is_unchanged : Plan N → Bool
  is_unchanged plan =
      is_empty plan.touched
      && (not (is_some plan.stored.unrecoverable)
          && elim plan.stored.raw [ none ↦ false | some raw ↦ str_eq raw plan.text ])

  unfoldable pub put_result : Option String → DocId → List Touched → String → ApiPutResult
  put_result view id touched digest = record {
    id = DocId.display id;
    view = view_out view;
    digest = digest;
    touched = touched_out touched;
  }

  -- `from_core` on the answer of a write, for the digest of what it wrote
  unfoldable pub written_digest : World B × Result (Document N) → World B × ApiResult String
  written_digest (w, ok d) = (w, done d.digest)
  written_digest (w, err x) = (w, from_core (err x))

  unfoldable pub answered :
      Option String
      → DocId
      → List Touched
      → World B × ApiResult String
      → World B × ApiResult ApiPutResult
  answered view id touched (w, done digest) = (w, done (put_result view id touched digest))
  answered view id touched (w, refused x) = (w, refused x)

  -- what a dry run, and a write that changes nothing, answer
  unfoldable pub unwritten : Plan N → ApiResult String
  unwritten plan =
      (if is_unchanged plan
        then done tt
        else from_core (check_size libs store (libs.size (libs.bytes_of plan.text))))
      >> done (libs.sha256 (libs.bytes_of plan.text))

  unfoldable pub apply_put : World B → PutRequest → Plan N → World B × ApiResult ApiPutResult
  apply_put w req plan =
      let written = written_digest (put_raw libs store w plan.doc_id plan.text req.digest) in
      answered req.view plan.doc_id plan.touched
        (if req.dry_run || is_unchanged plan then (w, unwritten plan) else written)

  unfoldable pub after_plan :
      World B → PutRequest → ApiResult (Plan N) → World B × ApiResult ApiPutResult
  unfolding apply_put
  after_plan w req (done plan) = apply_put w req plan
  after_plan w req (refused x) = (w, refused x)

  unfoldable pub put_document :
      World B → List (PrefixDef N) → PutRequest → CallerAcl → World B × ApiResult ApiPutResult
  unfolding after_plan
  put_document w prefixes req acl =
      after_plan w req (plan_put numbers libs decode store w prefixes req acl)
