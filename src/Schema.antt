-- ===== src/Schema.antt =====
-- The schema dialect of the prefixes: the flags (`as_flag` of crates/pve-meta-core/src/registry.rs)
-- and the check of one value against one schema node (crates/pve-meta-core/src/shape.rs).
pub mod Checks
use pve_meta.Shared.{
  zero, suc, String, Bool, true, false, not, ◌||◌, Option, none, some, List, [], ◌∷◌, any, map,
  str_eq, if◌then◌else◌, is_some, Eq,
}
use pve_meta.Json.{
  Value, bool, number, string, array, object, Items, nil, cons, get, is_object, is_string, eq_value,
}
use Prim.Native.String.{String, ◌++◌ as concat}
use pve_meta.Shared.Text.{join}
use pve_meta.Json.Numbers.{Numbers, ℤ, pos}

pub flag_of : Option ℤ → Option Bool
flag_of (some (pos (suc zero))) = some true
flag_of (some (pos zero)) = some false
flag_of _ = none

abbrev pub and_then {ℓ κ} : {A : Type ℓ} {B : Type κ} → Option A → (A → Option B) → Option B
and_then none f = none
and_then (some a) f = f a

abbrev pub or_default {ℓ} : {A : Type ℓ} → A → Option A → A
or_default a none = a
or_default a (some b) = b

-- the first of two messages
abbrev pub or_else : Option String → Option String → Option String
or_else none o = o
or_else (some m) o = some m

is_boolean : Option String → Bool
is_boolean none = false
is_boolean (some t) = str_eq t "boolean"

same_flag : Option Bool → Option Bool → Bool
same_flag (some true) (some b) = b
same_flag (some false) (some b) = not b
same_flag _ _ = false

module _ {N : Type 0} where
  -- `Value::get` with a text: nothing for a value that is no map
  unfoldable pub get_key : String → Value N → Option (Value N)
  unfolding get
  get_key key (object map) = get key map
  get_key key _ = none

  abbrev pub as_str : Value N → Option String
  as_str (string s) = some s
  as_str _ = none

  abbrev pub as_array : Value N → Option (Items N)
  as_array (array items) = some items
  as_array _ = none

  abbrev pub is_array : Value N → Bool
  is_array (array items) = true
  is_array _ = false

  abbrev pub is_number : Value N → Bool
  is_number (number n) = true
  is_number _ = false

  unfoldable pub items_list : Items N → List (Value N)
  items_list nil = []
  items_list (cons v items) = v ∷ items_list items

module _ {N F : Type 0} (numbers : Numbers N F) where
  unfoldable pub as_flag : Value N → Option Bool
  unfolding flag_of
  as_flag (bool b) = some b
  as_flag (number n) = flag_of (numbers.as_i64 n)
  as_flag _ = none

  unfoldable pub flag : Value N → String → Bool → Bool
  unfolding get_key as_flag
  flag schema key inherited = or_default inherited (and_then (get_key key schema) as_flag)

  unfoldable pub scalar_text : Value N → String
  scalar_text (string s) = s
  scalar_text other = numbers.display other

  -- `as_f64` of a value
  unfoldable pub as_number : Value N → Option F
  as_number (number n) = numbers.as_f64 n
  as_number _ = none

  is_integer : Value N → Bool
  is_integer (number n) = numbers.is_i64 n || numbers.is_u64 n
  is_integer _ = false

  unfoldable pub type_matches : String → Value N → Bool
  unfolding is_integer as_flag
  type_matches declared value =
      if str_eq declared "string"
      then is_string value
      else if str_eq declared "integer"
      then is_integer value
      else if str_eq declared "number"
      then is_number value
      else if str_eq declared "boolean"
      then is_some (as_flag value)
      else if str_eq declared "object"
      then is_object value
      else if str_eq declared "array"
      then is_array value
      else true

  module _ ⦃e : Eq N⦄ where
    unfoldable pub enum_admits : Option String → Value N → Value N → Bool
    unfolding is_boolean same_flag as_flag eq_value
    enum_admits declared member value =
        if is_boolean declared
        then same_flag (as_flag member) (as_flag value)
        else eq_value member value

    -- the checks of `check_value`, in their order, each with its message
    unfoldable pub check_type : Option String → Value N → Option String
    unfolding type_matches
    check_type none value = none
    check_type (some declared) value =
        if type_matches declared value then none else some (concat "expected " declared)

    unfoldable pub check_enum : Option String → Option (Items N) → Value N → Option String
    unfolding enum_admits scalar_text items_list
    check_enum declared none value = none
    check_enum declared (some allowed) value =
        if any (λ member. enum_admits declared member value) (items_list allowed)
        then none
        else some (concat "expected one of: " (join ", " (map scalar_text (items_list allowed))))

    unfoldable pub check_bound : (F → Bool) → String → Option (Value N) → Option String
    check_bound misses text none = none
    check_bound misses text (some bound) = elim (as_number bound) [
      | none ↦ none
      | some b ↦ if misses b then some (concat text (numbers.display bound)) else none
    ]

    unfoldable pub check_range : Value N → Value N → Option String
    check_range schema value = elim (as_number value) [
      | none ↦ none
      | some n ↦
          or_else
            (check_bound (λ min. numbers.less n min) "must be at least " (get_key "minimum" schema))
            (check_bound (λ max. numbers.less max n) "must be at most " (get_key "maximum" schema))
    ]

    unfoldable pub check_value : Value N → Value N → Option String
    check_value schema value =
        let declared = and_then (get_key "type" schema) as_str in
        or_else (check_type declared value) (
          or_else (check_enum declared (and_then (get_key "enum" schema) as_array) value)
            (check_range schema value))
