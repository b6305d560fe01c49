-- ===== src/Registry/Dialect.antt =====
-- The check of a prefix's schema against the dialect (crates/pve-meta-core/src/registry.rs).
use pve_meta.Shared.{
  String, Bool, true, false, not, ◌||◌, Option, none, some, List, [], ◌∷◌, any, map, str_eq,
  if◌then◌else◌, is_some,
}
use pve_meta.Json.{
  Value, bool, number, string, array, object, nil, cons, Fields, end, field, get, is_string,
}
use Prim.Native.String.{◌++◌ as concat}
use pve_meta.Shared.Text.{join}
use pve_meta.DocPath.{is_valid_segment}
use pve_meta.Json.Numbers.{Numbers}
use pve_meta.Schema.{as_flag, type_matches, scalar_text, as_number, items_list}
use pve_meta.Error.{Error, Result, ok, err, ◌>>=◌, ◌>>◌}

abbrev pub schema_types : List String
schema_types = "string" ∷ "integer" ∷ "number" ∷ "boolean" ∷ "object" ∷ "array" ∷ []

unfoldable pub bad : String → Error
bad msg = Error.registry msg

-- the error of a schema node, `name` being the file's and `place` the node's
unfoldable pub fail {ℓ} : {A : Type ℓ} → String → String → String → Result A
unfolding bad
fail name place msg = err (bad (concat name (concat ": " (concat place (concat ": " msg)))))

is_numeric : Option String → Bool
is_numeric none = false
is_numeric (some t) = str_eq t "integer" || str_eq t "number"

type_name : Option String → String
type_name none = ""
type_name (some t) = t

-- whether a type is declared that is not the given one
is_other : String → Option String → Bool
is_other t none = false
is_other t (some d) = not (str_eq d t)

module _ {N F : Type 0} (numbers : Numbers N F) where
  unfoldable pub declared_type : String → String → Option (Value N) → Result (Option String)
  unfolding scalar_text fail
  declared_type name place none = ok none
  declared_type name place (some (string t)) =
      if any (λ u. str_eq u t) schema_types
      then ok (some t)
      else fail name place (
          concat "'type' must be one of "
            (concat (join ", " schema_types) (concat " (got " (concat t ")"))))
  declared_type name place (some other) = fail name place (
      concat "'type' must be one of " (
        concat (join ", " schema_types) (concat " (got " (concat (scalar_text numbers other) ")"))))

  check_text : String → String → Fields N → String → Result (Unit {0})
  check_text name place map key = elim (get key map) [
    | none ↦ ok tt
    | some v ↦
        if is_string v
        then ok tt
        else fail name place (concat "'" (concat key "' must be a string"))
  ]

  check_flag : String → String → Fields N → String → Result (Unit {0})
  check_flag name place map key = elim (get key map) [
    | none ↦ ok tt
    | some v ↦
        if is_some (as_flag numbers v)
        then ok tt
        else fail name place (concat "'" (concat key "' must be true/false or 1/0"))
  ]

  is_scalar : Value N → Bool
  is_scalar (string s) = true
  is_scalar (number n) = true
  is_scalar (bool b) = true
  is_scalar _ = false

  check_member : String → String → Option String → Value N → Result (Unit {0})
  unfolding is_scalar
  check_member name place declared m =
      if not (is_scalar m)
      then fail name place "'enum' members must be scalars"
      else elim declared [
        | none ↦ ok tt
        | some t ↦
            if type_matches numbers t m
            then ok tt
            else fail name place (
                concat "'enum' member "
                  (concat (scalar_text numbers m) (concat " is not of type " t)))
      ]

  check_members : String → String → Option String → List (Value N) → Result (Unit {0})
  unfolding check_member
  check_members name place declared [] = ok tt
  check_members name place declared (m ∷ ms) =
      let rest = check_members name place declared ms in check_member name place declared m >> rest

  check_enum : String → String → Option String → Option (Value N) → Result (Unit {0})
  unfolding check_members
  check_enum name place declared none = ok tt
  check_enum name place declared (some (array nil)) = fail name place "'enum' must not be empty"
  check_enum name place declared (some (array (cons m ms))) =
      check_members name place declared (m ∷ items_list ms)
  check_enum name place declared (some _) = fail name place "'enum' must be a list"

  bound_at : String → String → Option String → Fields N → String → Result (Option F)
  unfolding is_numeric type_name
  bound_at name place declared map key = elim (get key map) [
    | none ↦ ok none
    | some v ↦ elim (as_number numbers v) [
      | none ↦ fail name place (concat "'" (concat key "' must be a number"))
      | some n ↦
          if not (is_some declared) || is_numeric declared
          then ok (some n)
          else fail name place
              (concat "'" (concat key (concat "' has no meaning for type " (type_name declared))))
    ]
  ]

  in_order : String → String → Option F → Option F → Result (Unit {0})
  in_order name place (some min) (some max) =
      if numbers.less max min
      then fail name place (
          concat "'minimum' (" (
            concat (numbers.float_text min)
              (concat ") is above 'maximum' (" (concat (numbers.float_text max) ")"))))
      else ok tt
  in_order name place _ _ = ok tt

  check_bounds : String → String → Option String → Fields N → Result (Unit {0})
  unfolding bound_at in_order
  check_bounds name place declared map = do
    min ← bound_at name place declared map "minimum"
    max ← bound_at name place declared map "maximum"
    in_order name place min max

  check_default : String → String → Option (Value N) → Option String → Result (Unit {0})
  check_default name place (some d) (some t) =
      if type_matches numbers t d
      then ok tt
      else fail name place (concat "'default' is not of type " t)
  check_default name place _ _ = ok tt

  -- the part of the check that is about the node itself, for its declared type
  own_checks : String → String → Fields N → Result (Option String)
  unfolding check_text check_flag check_enum check_bounds check_default
  own_checks name place map = do
    declared ← declared_type name place (get "type" map)
    check_text name place map "description"
    check_text name place map "format"
    check_flag name place map "hidden"
    check_flag name place map "enforce"
    check_flag name place map "multiline"
    check_flag name place map "optional"
    check_enum name place declared (get "enum" map)
    check_bounds name place declared map
    check_default name place (get "default" map) declared
    ok declared

  -- `items` and `properties` of a node, given what the checks below them answer
  items_allowed :
      String → String → Option String → Option (Value N) → Result (Unit {0}) → Result (Unit {0})
  unfolding is_other type_name
  items_allowed name place declared none below = ok tt
  items_allowed name place declared (some items) below =
      if is_other "array" declared
      then fail name place (concat "'items' has no meaning for type " (type_name declared))
      else below

  properties_allowed :
      String → String → Option String → Option (Value N) → Result (Unit {0}) → Result (Unit {0})
  unfolding is_other type_name
  properties_allowed name place declared none below = ok tt
  properties_allowed name place declared (some (object props)) below =
      if is_other "object" declared
      then fail name place (concat "'properties' has no meaning for type " (type_name declared))
      else below
  properties_allowed name place declared (some _) below =
      fail name place "'properties' must be a map"

  node_checks :
      String → String → Fields N → Result (Unit {0}) → Result (Unit {0}) → Result (Unit {0})
  unfolding own_checks items_allowed properties_allowed
  node_checks name place map items props = do
    declared ← own_checks name place map
    items_allowed name place declared (get "items" map) items
    properties_allowed name place declared (get "properties" map) props

  property_checked : String → String → String → Result (Unit {0}) → Result (Unit {0})
  property_checked name place key below =
      if is_valid_segment key
      then below
      else fail name place (concat "property '" (concat key "' is not a valid key"))

  unfoldable mutual
    unfolding node_checks property_checked get own_checks declared_type check_text check_flag
        check_enum check_members check_member is_scalar check_bounds bound_at in_order check_default
        items_allowed properties_allowed is_other is_numeric type_name

    pub check_schema_dialect : String → String → Value N → Result (Unit {0})
    check_schema_dialect name place (object map) =
        node_checks name place map (check_items name place map) (check_properties name place map)
    check_schema_dialect name place _ = fail name place "a schema node must be a map"

    -- the check of the value at the key `items`
    check_items : String → String → Fields N → Result (Unit {0})
    check_items name place end = ok tt
    check_items name place (field key v rest) =
        let here = check_schema_dialect name (concat place ".items") v in
        let later = check_items name place rest in if str_eq key "items" then here else later

    -- the checks of the values in the map at the key `properties`
    check_properties : String → String → Fields N → Result (Unit {0})
    check_properties name place end = ok tt
    check_properties name place (field key v rest) =
        let here = check_property_map name place v in
        let later = check_properties name place rest in
        if str_eq key "properties" then here else later

    check_property_map : String → String → Value N → Result (Unit {0})
    check_property_map name place (object props) = check_each name place props
    check_property_map name place _ = ok tt

    check_each : String → String → Fields N → Result (Unit {0})
    check_each name place end = ok tt
    check_each name place (field key sub rest) =
        let below = check_schema_dialect name (concat place (concat ".properties." key)) sub in
        let others = check_each name place rest in property_checked name place key below >> others
