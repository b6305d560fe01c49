-- ===== src/Json/Maps.antt =====
-- The laws of the map operations, in the form of a lookup after an update.
use pve_meta.Shared.{String, ◌≡◌, refl, none, some, arith, str_eq, eq_iff, if◌then◌else◌}
use pve_meta.Json.{Value, Fields, end, field, get, insert, shift_remove}

module _ {N : Type 0} where
  pub get-insert :
      (k j : String) (v : Value N) (f : Fields N)
      → get j (insert k v f) ≡ (if str_eq k j then some v else get j f)
  unfolding get insert
  get-insert k j v end = refl
  get-insert k j v (field i w f) =
      ground (arith, eq_iff k j, eq_iff i k, eq_iff i j, get-insert k j v f)

  pub get-shift_remove :
      (k j : String) (f : Fields N)
      → get j (shift_remove k f) ≡ (if str_eq k j then none else get j f)
  unfolding get shift_remove
  get-shift_remove k j end = ground arith
  get-shift_remove k j (field i w f) =
      ground (arith, eq_iff k j, eq_iff i k, eq_iff i j, get-shift_remove k j f)

  pub ruleset map_laws = (get-insert, get-shift_remove)

  -- Removing a key that is not there leaves the map as it is.
  pub shift_remove_absent : (k : String) (f : Fields N) → get k f ≡ none → shift_remove k f ≡ f
  unfolding get shift_remove
  shift_remove_absent k end h = refl
  shift_remove_absent k (field i w f) h = ground (arith, shift_remove_absent k f)

  -- Putting back the value that is there leaves the map as it is.
  pub insert_present :
      (k : String) (v : Value N) (f : Fields N) → get k f ≡ some v → insert k v f ≡ f
  unfolding get insert
  insert_present k v end h = cc
  insert_present k v (field i w f) h = ground (arith, insert_present k v f)
