-- ===== src/Api/Wire.antt =====
-- The requests and answers of the API (crates/pve-meta-core/src/api/types.rs), and the parsing of its
-- parameters (crates/pve-meta-core/src/api.rs).
use pve_meta.Shared.{
  String, Bool, true, false, ◌||◌, Option, none, some, List, [], ◌∷◌, map, str_eq, if◌then◌else◌,
  ◌⊎◌,
}
use pve_meta.Json.{Value, is_object}
use Prim.Native.String.{◌++◌ as concat}
use pve_meta.DocPath
use pve_meta.DocPath.{DocPath, root}
use pve_meta.DocPath.Parse
use pve_meta.DocId.{DocId, guest, registry, noun}
use pve_meta.Error.{Error, Result, ok, err, display_error}
use pve_meta.Format.{Format, from_ext}
use pve_meta.Format.Texts.{Libraries, parse_raw}
use pve_meta.Json.Numbers.{Numbers}
use pve_meta.Patch.{Op, Touched, set, delete}
use pve_meta.Registry.{NodeName}
use pve_meta.Registry.Parse.{RawPrefixDef, parse_prefix}
use pve_meta.Api.{ApiResult, done, refused, from_core, bad_request}

pub record CallerAcl : Type 0 where
  pub authid : String
  pub read : Bool
  pub write : Bool
  pub tags : List String
  pub at_node : Option NodeName

pub record ApiTouched : Type 0 where
  pub path : String
  pub op : String

pub record ApiViewDocument (N : Type 0) : Type 0 where
  pub id : String
  pub view : String
  pub digest : String
  pub data_out : Option (Value N)
  pub text : Option String
  pub parse_error : Option String

pub record ApiPutResult : Type 0 where
  pub id : String
  pub view : String
  pub digest : String
  pub touched : List ApiTouched

op_text : Op → String
op_text set = "set"
op_text delete = "delete"

unfoldable pub touched_out : List Touched → List ApiTouched
unfolding op_text
touched_out touched = map (λ t. record { path = DocPath.display t.path; op = op_text t.op }) touched

unfoldable pub view_out : Option String → String
view_out none = ""
view_out (some view) = view

unfoldable pub parse_view : Option String → ApiResult DocPath
parse_view none = done root
parse_view (some view) = from_core (DocPath.Parse.parse view)

unfoldable pub parse_view_format : String → ApiResult Format
parse_view_format name = elim (from_ext name) [
  | some format ↦ done format
  | none ↦
      refused (bad_request (concat "invalid format '" (concat name "': expected 'json' or 'yaml'")))
]

-- whether the mode is a merge
unfoldable pub parse_mode : String → ApiResult Bool
parse_mode mode =
    if str_eq mode "merge"
    then done true
    else if str_eq mode "replace" || str_eq mode ""
    then done false
    else refused
        (bad_request (concat "invalid mode '" (concat mode "': expected 'replace' or 'merge'")))

module _ {N B : Type 0} (libs : Libraries N B) where
  as_patch : Value N → Result (Value N)
  as_patch value =
      if is_object value
      then ok value
      else err
          (Error.lint ((record { path = root; msg = "a merge payload must be an object" }) ∷ []))

  and_patch : Result (Value N) → Result (Value N)
  unfolding as_patch
  and_patch (ok value) = as_patch value
  and_patch (err e) = err e

  -- `view::parse_patch`
  unfoldable pub parse_patch : String → Format → Result (Value N)
  unfolding and_patch
  parse_patch text format = and_patch (parse_raw libs format text)

  -- the payload of a write: `view::parse_patch` or `view::parse`
  unfoldable pub parse_payload : Bool → String → Format → ApiResult (Value N)
  parse_payload is_merge payload format =
      from_core (if is_merge then parse_patch payload format else parse_raw libs format payload)

module _ {N F B : Type 0} (numbers : Numbers N F) (libs : Libraries N B)
    (decode : Value N → String ⊎ RawPrefixDef N) where
  unfoldable pub shape_answer : {A : Type 0} → String → Result A → ApiResult Unit
  shape_answer noun (ok a) = done tt
  shape_answer noun (err e) = refused (
      bad_request (
        concat "the result would not be a valid " (
          concat noun (
            concat ": " (
              concat (display_error e)
                " (the loader would skip the file, so the write is refused instead)")))))

  unfoldable pub check_registry_shape : DocId → String → ApiResult Unit
  unfolding shape_answer
  check_registry_shape (guest vmid) text = done tt
  check_registry_shape (registry kind name) text =
      shape_answer (noun kind) (parse_prefix numbers libs decode name text)
