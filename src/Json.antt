-- ===== src/Json.antt =====
-- `serde_json::Value` with insertion-ordered maps (feature `preserve_order`), as
-- crates/pve-meta-core/src/model.rs uses it. The type of numbers is a parameter.
pub mod Maps
pub mod Invariant
pub mod WellFormed
pub mod Numbers
use pve_meta.Shared.{
  is_some, ℕ, String, Bool, true, false, ◌&&◌, Option, none, some, List, [], ◌∷◌, ◌==◌, str_eq, Eq,
  suc, if◌then◌else◌,
}

mutual
  pub data Value (N : Type 0) : Type 0 where
    null : Value N
    bool : Bool → Value N
    number : N → Value N
    string : String → Value N
    array : Items N → Value N
    object : Fields N → Value N

  pub data Items (N : Type 0) : Type 0 where
    nil : Items N
    cons : Value N → Items N → Items N

  -- the entries of a `Map`, in insertion order
  pub data Fields (N : Type 0) : Type 0 where
    end : Fields N
    field : String → Value N → Fields N → Fields N

module _ {N : Type 0} where
  abbrev pub is_object : Value N → Bool
  is_object (object f) = true
  is_object _ = false

  abbrev pub is_string : Value N → Bool
  is_string (string s) = true
  is_string _ = false

  abbrev pub as_object : Value N → Option (Fields N)
  as_object (object f) = some f
  as_object _ = none

  -- `Map::get`
  unfoldable pub get : String → Fields N → Option (Value N)
  get k end = none
  get k (field j v f) = if str_eq j k then some v else get k f

  -- `Map::contains_key`
  unfoldable pub contains_key : String → Fields N → Bool
  unfolding get
  contains_key k f = is_some (get k f)

  -- `Map::insert`: in place if the key is there, else at the end
  unfoldable pub insert : String → Value N → Fields N → Fields N
  insert k v end = field k v end
  insert k v (field j w f) = if str_eq j k then field j v f else field j w (insert k v f)

  -- `Map::shift_remove`, for what it leaves
  unfoldable pub shift_remove : String → Fields N → Fields N
  shift_remove k end = end
  shift_remove k (field j w f) =
      let rest = shift_remove k f in if str_eq j k then rest else field j w rest

  unfoldable pub keys : Fields N → List String
  keys end = []
  keys (field k v f) = k ∷ keys f

  abbrev pub is_empty_map : Fields N → Bool
  is_empty_map end = true
  is_empty_map (field k v f) = false

  unfoldable pub len : Fields N → ℕ
  len end = 0
  len (field k v f) = suc (len f)

abbrev bool_eq : Bool → Bool → Bool
bool_eq true b = b
bool_eq false true = false
bool_eq false false = true

module _ {N : Type 0} ⦃e : Eq N⦄ where
  -- `==` on values. Two maps are equal when they hold the same entries, in any order.
  unfoldable mutual
    unfolding get len

    pub eq_value : Value N → Value N → Bool
    eq_value null null = true
    eq_value (bool a) (bool b) = bool_eq a b
    eq_value (number a) (number b) = e.beq a b
    eq_value (string a) (string b) = str_eq a b
    eq_value (array xs) (array ys) = eq_items xs ys
    eq_value (object f) (object g) = len f == len g && all_in f g
    eq_value _ _ = false

    pub eq_items : Items N → Items N → Bool
    eq_items nil nil = true
    eq_items (cons x xs) (cons y ys) = eq_value x y && eq_items xs ys
    eq_items _ _ = false

    pub all_in : Fields N → Fields N → Bool
    all_in end g = true
    all_in (field k v f) g = elim (get k g) [ none ↦ false | some w ↦ eq_value v w && all_in f g ]
