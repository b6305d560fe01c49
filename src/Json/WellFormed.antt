-- ===== src/Json/WellFormed.antt =====
-- The representation of maps: no key twice, at any depth.
use pve_meta.Shared.{String, none, some, ◌≡◌, refl, arith, Bool-cases, inl, inr, eq_iff, str_eq}
use pve_meta.Json.{
  Value, array, object, Items, nil, cons, Fields, end, field, get, insert, shift_remove,
}
use pve_meta.Json.Maps.{get-insert, get-shift_remove}
use pve_meta.Json.Invariant.{MapInvariant}

module _ {N : Type 0} where
  abbrev mutual
    pub IsWellFormed : Value N → Type 0
    IsWellFormed (array items) = AreWellFormed items
    IsWellFormed (object f) = IsMap f
    IsWellFormed _ = Unit

    pub AreWellFormed : Items N → Type 0
    AreWellFormed nil = Unit
    AreWellFormed (cons v items) = IsWellFormed v × AreWellFormed items

    pub IsMap : Fields N → Type 0
    IsMap end = Unit
    IsMap (field k v f) = (get k f ≡ none) × IsWellFormed v × IsMap f

  pub IsMap-shift_remove : (k : String) (f : Fields N) → IsMap f → IsMap (shift_remove k f)
  unfolding shift_remove
  IsMap-shift_remove k end h = tt
  IsMap-shift_remove k (field j w f) (a, g, h) = elim (Bool-cases (str_eq j k)) [
    | inl same ↦ rw same (IsMap-shift_remove k f h)
    | inr other ↦ rw other (
      ground (arith, get-shift_remove k j f, eq_iff j k, eq_iff k j),
      g,
      IsMap-shift_remove k f h,
    )
  ]

  pub IsMap-insert :
      (k : String) (v : Value N) (f : Fields N) → IsWellFormed v → IsMap f → IsMap (insert k v f)
  unfolding insert
  IsMap-insert k v end g h = (unfold get in refl, g, tt)
  IsMap-insert k v (field j w f) g (a, b, h) = elim (Bool-cases (str_eq j k)) [
    | inl same ↦ rw same (a, g, h)
    | inr other ↦
        rw other
          (ground (arith, get-insert k j v f, eq_iff j k, eq_iff k j), b, IsMap-insert k v f g h)
  ]

  pub IsWellFormed-get :
      (k : String) (v : Value N) (f : Fields N) → IsMap f → get k f ≡ some v → IsWellFormed v
  unfolding get
  IsWellFormed-get k v end h e = cc
  IsWellFormed-get k v (field j w f) (a, g, h) e = elim (Bool-cases (str_eq j k)) [
    | inl same ↦ let found : w ≡ v = ground arith in rw (← found) g
    | inr other ↦ IsWellFormed-get k v f h (ground arith)
  ]

-- No key stands twice in a map, nor in a map inside it.
abbrev pub unique_keys : (N : Type 0) → MapInvariant N
unique_keys N = record {
  Holds = IsMap;
  Fits = λ k v. IsWellFormed v;
  AllowsObject = λ k. Unit;
  holds_empty = tt;
  holds_removed = IsMap-shift_remove;
  holds_inserted = IsMap-insert;
  object_fits = λ k f _ h. h;
  holds_inside = λ k f inner h e. IsWellFormed-get k (object inner) f h e;
}
