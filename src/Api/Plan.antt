-- ===== src/Api/Plan.antt =====
-- The planning of a write (crates/pve-meta-core/src/api.rs): the mutations of `put_document` and
-- `delete_document`, and all that `put_document` does before it changes the store.
use pve_meta.Shared.{String, Bool, true, false, not, ◌&&◌, Option, some, List, Eq, ◌⊎◌}
use pve_meta.Json.{Value}
use pve_meta.DocPath.{DocPath}
use pve_meta.DocId.{DocId}
use pve_meta.Error.{Result, ok, err}
use pve_meta.Format.Texts.{Libraries, dump}
use pve_meta.Json.Numbers.{Numbers}
use pve_meta.Patch.{Touched}
use pve_meta.View.{extract, merge, replace, remove}
use pve_meta.View.Notes.{keep_comments}
use pve_meta.Registry.{PrefixDef}
use pve_meta.Registry.Parse.{RawPrefixDef}
use pve_meta.Store.{MetaStore, World, disk_format, read, digest_of, check_precondition}
use pve_meta.Api.{
  ApiResult, done, refused, from_core, api_error, parse_id, Stored, read_stored, check_repairable,
  plan_write, authorize_write, check_enforced, ◌>>=◌, ◌>>◌,
}
use pve_meta.Api.Wire.{
  CallerAcl, parse_view, parse_view_format, parse_mode, parse_payload, check_registry_shape,
}

-- the parameters of a write, by their names in `put_document`
pub record PutRequest : Type 0 where
  pub id : String
  pub view : Option String
  pub format_name : String
  pub payload : String
  pub mode : String
  pub digest : Option String
  pub dry_run : Bool
  pub force : Bool
  pub comments : Bool

-- what a write has planned, before it is applied
pub record Plan (N : Type 0) : Type 0 where
  pub doc_id : DocId
  pub stored : Stored N
  pub planned : Value N
  pub touched : List Touched
  pub text : String

module _ {N : Type 0} where
  kept : Bool → Option (Value N) → Value N → Value N
  kept true (some old) new = keep_comments old new
  kept _ _ new = new

  mapped : Value N × Result (List Touched) → Value N × ApiResult (List Touched)
  mapped (v, r) = (v, from_core r)

module _ {N : Type 0} ⦃e : Eq N⦄ where
  replaced_at :
      Bool
      → DocPath
      → Value N
      → Value N
      → Result (Option (Value N))
      → Value N × ApiResult (List Touched)
  unfolding kept mapped
  replaced_at keep_notes view_path payload v (ok old) =
      mapped (replace v view_path (kept keep_notes old payload))
  replaced_at keep_notes view_path payload v (err x) = (v, refused (api_error x))

  -- the mutation that `put_document` plans
  unfoldable pub mutate :
      Bool → Bool → DocPath → Value N → Value N → Value N × ApiResult (List Touched)
  unfolding replaced_at kept mapped
  mutate true keep_notes view_path payload v = mapped (merge v view_path payload)
  mutate false keep_notes view_path payload v =
      replaced_at keep_notes view_path payload v (extract v view_path)

  -- the mutation that `delete_document` plans
  unfoldable pub removal : DocPath → Value N → Value N × ApiResult (List Touched)
  unfolding mapped
  removal view_path v = mapped (remove v view_path)

unfoldable pub unless : Bool → ApiResult Unit → ApiResult Unit
unless true check = done tt
unless false check = check

module _ {N F B : Type 0} (numbers : Numbers N F) (libs : Libraries N B)
    (decode : Value N → String ⊎ RawPrefixDef N) (store : MetaStore) ⦃e : Eq N⦄ where
  -- what is stored of a document
  unfoldable pub stored_at : World B → DocId → ApiResult (Stored N)
  stored_at w id = read_stored (read libs store w id) (digest_of libs store w id)

  -- the checks of a plan's result
  unfoldable pub checked_plan :
      List (PrefixDef N)
      → Bool
      → DocId
      → Stored N
      → Value N × ApiResult (List Touched)
      → ApiResult (Plan N)
  checked_plan prefixes force doc_id stored (planned, answer) = do
    touched ← answer
    let text = dump libs disk_format planned in
        check_registry_shape numbers libs decode doc_id text
        >> (unless force (check_enforced numbers prefixes doc_id stored.value planned touched)
            >> done (record {
              doc_id = doc_id;
              stored = stored;
              planned = planned;
              touched = touched;
              text = text;
            }))

  -- `put_document` up to the point where it applies the plan
  unfoldable pub plan_put :
      World B → List (PrefixDef N) → PutRequest → CallerAcl → ApiResult (Plan N)
  plan_put w prefixes req acl = do
    doc_id ← parse_id req.id
    format ← parse_view_format req.format_name
    view_path ← parse_view req.view
    authorize_write acl.write
    is_merge ← parse_mode req.mode
    payload ← parse_payload libs is_merge req.payload format
    from_core (check_precondition libs store w doc_id req.digest)
    stored ← stored_at w doc_id
    check_repairable stored view_path is_merge
    let keep_notes = not is_merge && not req.comments in
        checked_plan prefixes req.force doc_id stored
          (plan_write stored.value keep_notes (mutate is_merge keep_notes view_path payload))
