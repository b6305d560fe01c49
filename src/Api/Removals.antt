-- ===== src/Api/Removals.antt =====
-- `delete_document` (crates/pve-meta-core/src/api.rs), over the store.
use pve_meta.Shared.{
  String, Bool, false, not, ◌&&◌, Option, none, some, List, is_empty, str_eq, if◌then◌else◌, Eq,
  ◌⊎◌,
}
use pve_meta.Json.{Value}
use Prim.Native.String.{◌++◌ as concat}
use pve_meta.DocPath.{DocPath, is_root}
use pve_meta.DocId.{DocId, guest, registry, noun}
use pve_meta.Error.{Result, ok, err}
use pve_meta.Format.Texts.{Libraries, dump}
use pve_meta.Json.Numbers.{Numbers}
use pve_meta.Patch.{Touched}
use pve_meta.Registry.Parse.{RawPrefixDef}
use pve_meta.Store.{MetaStore, World, disk_format, has_own_file, check_precondition}
use pve_meta.Store.Ops.{put_raw}
use pve_meta.Store.Ops
use pve_meta.Api.{
  ApiResult, done, refused, from_core, parse_id, Stored, check_repairable, plan_write,
  authorize_write, ◌>>=◌, ◌>>◌,
}
use pve_meta.Api.Wire.{CallerAcl, ApiPutResult, parse_view, check_registry_shape}
use pve_meta.Api.Plan.{stored_at, removal}
use pve_meta.Api.Handlers.{written_digest, answered}

module _ {N F B : Type 0} (numbers : Numbers N F) (libs : Libraries N B)
    (decode : Value N → String ⊎ RawPrefixDef N) (store : MetaStore) ⦃e : Eq N⦄ where
  -- whether only a packaged file is there for a registry document
  packaged_only : DocId → Bool → Option (String × String)
  packaged_only (guest vmid) own_file = none
  packaged_only (registry kind name) own_file = if own_file then none else some (noun kind, name)

  unfoldable pub check_own_file : DocId → Bool → DocPath → Stored N → ApiResult Unit
  unfolding packaged_only
  check_own_file id own_file view_path stored = elim (packaged_only id own_file) [
    | none ↦ done tt
    | some (noun, name) ↦
        if is_root view_path && not (str_eq stored.digest "")
        then refused (record {
          status = 404;
          msg =
              concat "no cluster file for "
                (concat noun (concat " '" (concat name "' (the packaged file cannot be removed)")));
        })
        else done tt
  ]

  pub record Removal : Type 0 where
    pub doc_id : DocId
    pub view_path : DocPath
    pub stored : Stored N
    pub planned : Value N
    pub touched : List Touched

  unfoldable pub planned_removal :
      DocId → DocPath → Stored N → Value N × ApiResult (List Touched) → ApiResult Removal
  planned_removal id view_path stored (planned, answer) = do
    touched ← answer
    done (record {
      doc_id = id;
      view_path = view_path;
      stored = stored;
      planned = planned;
      touched = touched;
    })

  -- `delete_document` up to the point where it changes the store
  unfoldable pub plan_delete :
      World B → String → Option String → Option String → CallerAcl → ApiResult Removal
  unfolding check_own_file planned_removal
  plan_delete w id view digest acl = do
    doc_id ← parse_id id
    view_path ← parse_view view
    authorize_write acl.write
    from_core (check_precondition libs store w doc_id digest)
    stored ← stored_at numbers libs decode store w doc_id
    check_repairable stored view_path false
    own_file ← from_core (has_own_file libs store w doc_id)
    check_own_file doc_id own_file view_path stored
    planned_removal doc_id view_path stored (plan_write stored.value false (removal view_path))

  unfoldable pub removed_digest : World B × Result Bool → World B × ApiResult String
  removed_digest (w, ok there) = (w, done "")
  removed_digest (w, err x) = (w, from_core (err x))

  unfoldable pub shaped :
      World B → ApiResult Unit → World B × ApiResult String → World B × ApiResult String
  shaped w (done u) answer = answer
  shaped w (refused x) answer = (w, refused x)

  unfoldable pub apply_delete : World B → Option String → Removal → World B × ApiResult String
  unfolding removed_digest shaped
  apply_delete w digest r =
      let text = dump libs disk_format r.planned in
      let gone = removed_digest (Ops.delete libs store w r.doc_id) in
      let rewritten =
        shaped w (check_registry_shape numbers libs decode r.doc_id text)
          (written_digest numbers libs decode store (put_raw libs store w r.doc_id text digest)) in
      if is_root r.view_path
      then gone
      else if is_empty r.touched
      then (w, done r.stored.digest)
      else if not (str_eq r.stored.digest "")
      then rewritten
      else (w, done "")

  unfoldable pub after_removal :
      World B → Option String → Option String → ApiResult Removal → World B × ApiResult ApiPutResult
  after_removal w view digest (done r) =
      answered numbers libs decode store view r.doc_id r.touched (apply_delete w digest r)
  after_removal w view digest (refused x) = (w, refused x)

  unfoldable pub delete_document :
      World B
      → String
      → Option String
      → Option String
      → CallerAcl
      → World B × ApiResult ApiPutResult
  unfolding after_removal
  delete_document w id view digest acl =
      after_removal w view digest (plan_delete w id view digest acl)
