-- ===== src/Shape.antt =====
-- crates/pve-meta-core/src/shape.rs: the declared prefixes of one document, which of them governs a
-- path, and what its schema says about the values there.
pub mod Governing
pub mod Findings
pub mod Edits
use pve_meta.Shared.{
  ℕ, ◌+◌, String, Bool, true, false, not, ◌&&◌, ◌||◌, Option, none, some, List, [], ◌∷◌, ◌++◌, any,
  map, str_eq, if◌then◌else◌, Eq,
}
use pve_meta.Json.{
  Value, string, array, object, Items, nil, cons, Fields, end, field, get, as_object,
}
use pve_meta.DocPath.{DocPath, root, child, is_prefix_of}
use pve_meta.Shared.Decimal.{to_string}
use pve_meta.Shared.Sort.{sort_by, is_less, compare_texts}
use pve_meta.Json.Numbers.{Numbers}
use pve_meta.Model.{get_path}
use pve_meta.Registry.{PrefixDef, by_specificity}
use pve_meta.Schema.{get_key, and_then, as_str, flag, check_value}

pub record Finding : Type 0 where
  pub path : DocPath
  pub msg : String
  pub enforced : Bool

pub record FormatCheck : Type 0 where
  pub path : DocPath
  pub format : String
  pub value : String

pub data Report : Type 0 where
  finding : Finding → Report
  format_check : FormatCheck → Report

-- `Report::path`
unfoldable pub path_of : Report → DocPath
path_of (finding f) = f.path
path_of (format_check f) = f.path

abbrev pub finding_of : Report → Option Finding
finding_of (finding f) = some f
finding_of (format_check f) = none

abbrev pub earlier : Report → Report → Bool
earlier a b = is_less (compare_texts (path_of a).segments (path_of b).segments)

unfoldable pub enforced_of : List Report → List Finding
enforced_of [] = []
enforced_of (finding f ∷ rs) = let rest = enforced_of rs in if f.enforced then f ∷ rest else rest
enforced_of (format_check f ∷ rs) = enforced_of rs

pub record Declared (N : Type 0) : Type 0 where
  pub prefix : DocPath
  pub description : Option String
  pub schema : Option (Value N)
  pub enforce : Bool
  pub hidden : Bool

pub record Described (N : Type 0) : Type 0 where
  pub path : DocPath
  pub schema : Value N
  pub hidden : Bool

-- the derived `==` of paths
unfoldable pub same_segments : List String → List String → Bool
same_segments [] [] = true
same_segments (a ∷ as') (b ∷ bs) = str_eq a b && same_segments as' bs
same_segments _ _ = false

-- the segments below the prefix of the owner
drop : List String → List String → List String
drop [] segs = segs
drop (p ∷ ps) [] = []
drop (p ∷ ps) (s ∷ segs) = drop ps segs

module _ {N : Type 0} where
  -- `From<&PrefixDef>`
  unfoldable pub declared_of : PrefixDef N → Declared N
  declared_of p = record {
    prefix = p.prefix;
    description = p.description;
    schema = p.schema;
    enforce = p.enforce;
    hidden = p.hidden;
  }

  abbrev pub more_specific : Declared N → Declared N → Bool
  more_specific a b = is_less (by_specificity a.prefix b.prefix)

  -- A `Shape` is its list of prefixes; this is `Shape::new`.
  unfoldable pub shape_of : List (Declared N) → List (Declared N)
  shape_of declared = sort_by more_specific declared

  unfoldable pub of_guest : List (PrefixDef N) → List (Declared N)
  of_guest defs = shape_of (map declared_of defs)

  unfoldable pub rooted : Value N → List (Declared N)
  rooted schema = shape_of (
      record {
        prefix = root;
        description = none;
        schema = some schema;
        enforce = false;
        hidden = false;
      }
      ∷ [])

  unfoldable pub governing : List (Declared N) → DocPath → Option (Declared N)
  governing [] path = none
  governing (d ∷ ds) path = if is_prefix_of d.prefix path then some d else governing ds path

  properties_at : Value N → List String → Option (Value N)
  properties_at node [] = some node
  properties_at node (seg ∷ segs) =
      and_then (and_then (get_key "properties" node) (get_key seg)) (λ sub. properties_at sub segs)

  unfoldable pub schema_at : List (Declared N) → DocPath → Option (Value N)
  unfolding drop properties_at
  schema_at shape path = and_then (governing shape path) (λ owner.
      and_then owner.schema (λ node. properties_at node (drop owner.prefix.segments path.segments)))

  -- the comparison of the prefixes that `governing` and the owner have
  unfoldable pub is_owner : List (Declared N) → Declared N → DocPath → Bool
  is_owner shape owner path = elim (governing shape path) [
    | none ↦ false
    | some d ↦ same_segments d.prefix.segments owner.prefix.segments
  ]

module _ {N F : Type 0} (numbers : Numbers N F) where
  module _ (shape : List (Declared N)) (owner : Declared N) where
    -- a path that the owner governs, before the paths below it
    described : Value N → DocPath → Bool → List (Described N) → List (Described N)
    described schema path hidden below =
        if is_owner shape owner path
        then record { path = path; schema = schema; hidden = hidden } ∷ below
        else []

    -- The walk over a schema's entries looks for the first `properties`, which is the only one.
    unfoldable mutual
      unfolding described

      pub collect : Value N → DocPath → Bool → List (Described N)
      collect (object entries) path inherited =
          let hidden = flag numbers (object entries) "hidden" inherited in
          described (object entries) path hidden (collect_properties entries path hidden)
      collect schema path inherited =
          described schema path (flag numbers schema "hidden" inherited) []

      pub collect_properties : Fields N → DocPath → Bool → List (Described N)
      collect_properties end path hidden = []
      collect_properties (field k v entries) path hidden =
          let rest = collect_properties entries path hidden in
          let here = collect_map v path hidden in if str_eq k "properties" then here else rest

      pub collect_map : Value N → DocPath → Bool → List (Described N)
      collect_map (object props) path hidden = collect_each props path hidden
      collect_map _ path hidden = []

      pub collect_each : Fields N → DocPath → Bool → List (Described N)
      collect_each end path hidden = []
      collect_each (field k sub props) path hidden =
          collect sub (child path k) hidden ++ collect_each props path hidden

  index_from : List (Declared N) → List (Declared N) → List (Described N)
  unfolding collect
  index_from shape [] = []
  index_from shape (owner ∷ owners) = elim owner.schema [
    | none ↦ index_from shape owners
    | some schema ↦ collect shape owner schema owner.prefix owner.hidden ++ index_from shape owners
  ]

  unfoldable pub schema_index : List (Declared N) → List (Described N)
  unfolding index_from
  schema_index shape = index_from shape shape

  module _ ⦃e : Eq N⦄ (shape : List (Declared N)) (owner : Declared N) where
    -- the format check of a text
    format_report : Value N → DocPath → Option String → List Report
    format_report (string s) path (some format) =
        format_check (record { path = path; format = format; value = s }) ∷ []
    format_report _ path _ = []

    -- A value of the wrong shape says nothing about what is below it.
    unfoldable pub reported :
        Option String → Value N → Value N → DocPath → Bool → List Report → List Report
    unfolding format_report
    reported (some msg) schema value path enforce below =
        finding (record { path = path; msg = msg; enforced = enforce }) ∷ []
    reported none schema value path enforce below =
        format_report value path (and_then (get_key "format" schema) as_str) ++ below

    -- A key that the schema does not describe, or that a more specific prefix owns, is passed over.
    unfoldable pub entry_reports :
        Option (Value N) → DocPath → (Value N → List Report) → List Report → List Report
    entry_reports none path below rest = rest
    entry_reports (some sub) path below rest =
        if is_owner shape owner path then below sub ++ rest else rest

    unfoldable mutual
      unfolding reported entry_reports

      pub walk : Value N → Value N → DocPath → Bool → List Report
      walk schema (array members) path inherited =
          let enforce = flag numbers schema "enforce" inherited in
          reported (check_value numbers schema (array members)) schema (array members) path enforce
            (walk_members (get_key "items" schema) members 0 path enforce)
      walk schema (object map) path inherited =
          let enforce = flag numbers schema "enforce" inherited in
          reported (check_value numbers schema (object map)) schema (object map) path enforce
            (walk_entries (and_then (get_key "properties" schema) as_object) map path enforce)
      walk schema value path inherited =
          reported (check_value numbers schema value) schema value path
            (flag numbers schema "enforce" inherited) []

      pub walk_members : Option (Value N) → Items N → ℕ → DocPath → Bool → List Report
      walk_members none members i path enforce = []
      walk_members (some items) nil i path enforce = []
      walk_members (some items) (cons member members) i path enforce =
          walk items member (child path (to_string i)) enforce
          ++ walk_members (some items) members (i + 1) path enforce

      pub walk_entries : Option (Fields N) → Fields N → DocPath → Bool → List Report
      walk_entries none map path enforce = []
      walk_entries (some props) end path enforce = []
      walk_entries (some props) (field key v map) path enforce =
          entry_reports (get key props) (child path key)
            (λ sub. walk sub v (child path key) enforce)
            (walk_entries (some props) map path enforce)

  module _ ⦃e : Eq N⦄ where
    -- the walk of one owner
    unfoldable pub owner_findings :
        List (Declared N) → Declared N → Option (Value N) → Option (Value N) → List Report
    owner_findings shape owner (some schema) (some value) =
        walk shape owner schema value owner.prefix owner.enforce
    owner_findings shape owner _ _ = []

    unfoldable pub findings_from : List (Declared N) → List (Declared N) → Value N → List Report
    findings_from shape [] doc = []
    findings_from shape (owner ∷ owners) doc =
        owner_findings shape owner owner.schema (get_path doc owner.prefix)
        ++ findings_from shape owners doc

    unfoldable pub findings : List (Declared N) → Value N → List Report
    findings shape doc = sort_by earlier (findings_from shape shape doc)

    unfoldable pub enforced_findings : List (Declared N) → Value N → List Finding
    enforced_findings shape doc = enforced_of (findings shape doc)

-- the derived `==`
same_flag : Bool → Bool → Bool
same_flag true b = b
same_flag false b = not b

unfoldable pub same_finding : Finding → Finding → Bool
unfolding same_segments same_flag
same_finding f g =
    same_segments f.path.segments g.path.segments
    && (str_eq f.msg g.msg && same_flag f.enforced g.enforced)

-- a path of the edit is above the finding's or below it
unfoldable pub is_touched : List DocPath → DocPath → Bool
is_touched changed path = any (λ c. is_prefix_of c path || is_prefix_of path c) changed

unfoldable pub introduced : List Finding → List Finding → List DocPath → List Finding
introduced before [] changed = []
introduced before (f ∷ after) changed =
    let rest = introduced before after changed in
    if not (any (same_finding f) before) || is_touched changed f.path then f ∷ rest else rest
