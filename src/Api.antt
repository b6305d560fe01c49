-- ===== src/Api.antt =====
-- crates/pve-meta-core/src/api.rs: the status of an error, the ids, the reading of a stored
-- document that never fails on its content, and the gates of a write.
pub mod Gates
pub mod Reads
pub mod Wire
pub mod Plan
pub mod Handlers
pub mod Removals
pub mod Views
pub mod Checked
pub mod Enforced
pub mod Removable
pub mod DryRuns
pub mod Effects
pub mod Deletes
pub mod Listings
use pve_meta.Shared.{
  ℕ, String, Bool, true, not, ◌&&◌, Option, none, some, List, is_empty, map, str_eq, if◌then◌else◌,
  Eq,
}
use pve_meta.Json.{Value, object, end, is_object}
use Prim.Native.String.{◌++◌ as concat}
use Prim.Native.String
use Prim.Native.Nat.{◌^◌}
use pve_meta.DocId
use pve_meta.DocPath
use pve_meta.Model.{Lint, lint, display_lint}
use pve_meta.Store.{Document}
use pve_meta.Error.{display_error, Error, Result, ok, err}
use pve_meta.DocPath.{DocPath, is_root}
use pve_meta.DocPath.Parse
use pve_meta.DocId.{DocId, guest, registry, prefix_def}
use pve_meta.Shared.Text.{split_once, join}
use pve_meta.Shared.Decimal.{parse_unsigned}
use pve_meta.Registry.{is_valid_file_name, PrefixDef}
use pve_meta.Patch.{Touched, delete}
use pve_meta.View.Notes.{names_comment}
use pve_meta.Json.Numbers.{Numbers}
use pve_meta.Shape.{Finding, of_guest, enforced_findings, introduced}

pub record ApiError : Type 0 where
  pub status : ℕ
  pub msg : String

pub data ApiResult (A : Type 0) : Type 0 where
  done : A → ApiResult A
  refused : ApiError → ApiResult A

infixl 5 ◌>>=◌
abbrev pub ◌>>=◌ : {A B : Type 0} → ApiResult A → (A → ApiResult B) → ApiResult B
done a >>= f = f a
refused e >>= f = refused e

infixl 5 ◌>>◌
abbrev pub ◌>>◌ : {B : Type 0} → ApiResult Unit → ApiResult B → ApiResult B
m >> k = m >>= λ _. k

unfoldable pub show_digest : String → String
show_digest d = if str_eq d "" then "<empty>" else d

unfoldable pub status_of : Error → ℕ
status_of (Error.digest_mismatch expected actual) = 409
status_of (Error.not_found id) = 404
status_of (Error.lint lints) = 400
status_of (Error.parse format msg at) = 400
status_of (Error.invalid_path msg) = 400
status_of (Error.invalid_name msg) = 400
status_of (Error.registry msg) = 400
status_of (Error.too_large size max) = 400
status_of (Error.unavailable msg) = 503
status_of (Error.io msg) = 500
status_of (Error.other msg) = 500

api_msg : Error → String
api_msg (Error.digest_mismatch expected actual) =
    concat "digest mismatch: expected "
      (concat (show_digest expected) (concat ", actual " (show_digest actual)))
api_msg e = display_error e

-- `From<CoreError>`
unfoldable pub api_error : Error → ApiError
unfolding status_of api_msg show_digest display_error
api_error e = record { status = status_of e; msg = api_msg e }

-- `?` on a result of the core
unfoldable pub from_core : {A : Type 0} → Result A → ApiResult A
from_core (ok a) = done a
from_core (err e) = refused (api_error e)

unfoldable pub bad_request : String → ApiError
bad_request msg = record { status = 400; msg = msg }

unfoldable pub forbidden : DocPath → ApiError
forbidden path =
    if is_root path
    then record { status = 403; msg = "not permitted: the whole document" }
    else record { status = 403; msg = concat "not permitted: " (DocPath.display path) }

guest_id : String → Option ℕ → ApiResult DocId
guest_id id (some vmid) = done (guest vmid)
guest_id id none =
    refused
      (bad_request (concat "invalid id '" (concat id "': must be a vmid or 'prefixes/<name>'")))

id_of : String → Option (String × String) → ApiResult DocId
id_of id none = guest_id id (parse_unsigned (2 ^ 32) id)
id_of id (some (kind, name)) =
    if not (str_eq kind "prefixes")
    then refused (
        bad_request (
          concat "invalid id '" (
            concat id
              (concat "': unknown registry kind '" (concat kind "' (expected 'prefixes')")))))
    else if not (is_valid_file_name name)
    then refused (
        bad_request (
          concat "invalid id '"
            (concat id (concat "': '" (concat name "' is not a valid prefixes name")))))
    else done (registry prefix_def name)

unfoldable pub parse_id : String → ApiResult DocId
unfolding id_of guest_id split_once bad_request
parse_id id = id_of id (split_once b'/' id)

pub record Stored (N : Type 0) : Type 0 where
  pub value : Value N
  pub digest : String
  pub unrecoverable : Option String
  pub raw : Option String

or_empty_digest : Option String → String
or_empty_digest none = ""
or_empty_digest (some d) = d

-- the text of a finding, and how to reach a stored note
detail_of : Bool → Lint → String
detail_of kept_notes l =
    if kept_notes && names_comment l.path
    then concat (display_lint l) " (a stored note; fix it with comments=1)"
    else display_lint l

module _ {N : Type 0} where
  unfoldable pub absent : Stored N
  absent = record { value = object end; digest = ""; unrecoverable = none; raw = none }

  unfoldable pub unrecoverable : String → Option String → String → Stored N
  unrecoverable digest raw reason = record {
    value = object end;
    digest = digest;
    unrecoverable = some reason;
    raw = raw;
  }

  stored_of : Document N → Stored N
  unfolding unrecoverable
  stored_of doc = elim doc.parse_error [
    | some reason ↦ unrecoverable doc.digest (some doc.raw) reason
    | none ↦
        if not (is_object doc.value)
        then unrecoverable doc.digest (some doc.raw) "the stored document is not a mapping"
        else record {
          value = doc.value;
          digest = doc.digest;
          unrecoverable = none;
          raw = some doc.raw;
        }
  ]

  by_digest : Error → Result (Option String) → ApiResult (Stored N)
  unfolding unrecoverable or_empty_digest
  by_digest e (ok d) = done (unrecoverable (or_empty_digest d) none (display_error e))
  by_digest e (err x) = refused (api_error x)

  -- The arguments are what `store.read` and `store.digest_of` answer for the id.
  unfoldable pub read_stored : Result (Document N) → Result (Option String) → ApiResult (Stored N)
  unfolding absent stored_of by_digest
  read_stored (ok doc) digest = done (stored_of doc)
  read_stored (err (Error.not_found id)) digest = done absent
  read_stored (err (Error.too_large size max)) digest = by_digest (Error.too_large size max) digest
  read_stored (err (Error.parse format msg at)) digest =
      by_digest (Error.parse format msg at) digest
  read_stored (err e) digest = refused (api_error e)

  unfoldable pub check_repairable : Stored N → DocPath → Bool → ApiResult Unit
  check_repairable stored view_path is_merge = elim stored.unrecoverable [
    | none ↦ done tt
    | some reason ↦
        if is_root view_path && not is_merge
        then done tt
        else refused (
            bad_request (
              concat
                "the stored document cannot be read back and can only be repaired as a whole: replace it with a full document (no 'view', mode=replace) or delete it ("
                (concat reason ")")))
  ]

  linted : Bool → Value N → List Touched → ApiResult (List Touched)
  linted kept_notes planned touched =
      let lints = lint planned in
      if is_empty lints
      then done touched
      else refused (
          bad_request
            (concat "document failed validation: " (join "; " (map (detail_of kept_notes) lints))))

  after_mutation : Bool → Value N → ApiResult (List Touched) → Value N × ApiResult (List Touched)
  unfolding linted
  after_mutation kept_notes planned (done touched) = (planned, linted kept_notes planned touched)
  after_mutation kept_notes planned (refused e) = (planned, refused e)

  -- The planned document as the mutation leaves it, and the answer.
  unfoldable pub plan_write :
      Value N
      → Bool
      → (Value N → Value N × ApiResult (List Touched))
      → Value N × ApiResult (List Touched)
  unfolding after_mutation detail_of
  plan_write planned kept_notes mutate =
      let (planned', touched) = mutate planned in after_mutation kept_notes planned' touched

-- `acl.write`
unfoldable pub authorize_write : Bool → ApiResult Unit
authorize_write write =
    if write
    then done tt
    else refused (record { status = 403; msg = "not permitted: no write access to this document" })

finding_text : Finding → String
finding_text f = concat (DocPath.display f.path) (concat ": " f.msg)

gate : List Finding → ApiResult Unit
unfolding finding_text
gate found =
    if is_empty found
    then done tt
    else refused (record {
      status = 422;
      msg = concat "the result does not match an enforced schema: " (
          concat (join "; " (map finding_text found))
            " (the prefix declares enforce: true; pass force=1 to store it anyway)");
    })

changed_paths : List Touched → List DocPath
changed_paths touched = map (λ t. t.path) touched

module _ {N F : Type 0} (numbers : Numbers N F) ⦃e : Eq N⦄ where
  unfoldable pub check_enforced :
      List (PrefixDef N) → DocId → Value N → Value N → List Touched → ApiResult Unit
  unfolding gate changed_paths
  check_enforced prefixes (registry kind name) stored planned touched = done tt
  check_enforced prefixes (guest vmid) stored planned touched =
      let shape = of_guest prefixes in
      gate (
        introduced (enforced_findings numbers shape stored)
          (enforced_findings numbers shape planned) (changed_paths touched))
