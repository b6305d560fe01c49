-- ===== src/View.antt =====
-- crates/pve-meta-core/src/view.rs: reads and writes of the subtree at a path, through maps only.
-- A function that gets `&mut Value` returns the document as it leaves it, on an error too.
pub mod Descent
pub mod Steps
pub mod Refusals
pub mod Writes
pub mod Merges
pub mod Removals
pub mod Notes
use Prim.Native.String.{◌++◌ as concat}
use pve_meta.Shared.{
  is_some, String, not, ◌&&◌, Option, none, some, List, [], ◌∷◌, ◌++◌, is_empty, Eq, if◌then◌else◌,
}
use pve_meta.DocPath
use pve_meta.DocPath.{DocPath, child, parent, last}
use pve_meta.Json.{Value, array, object, Fields, end, get, insert, shift_remove, is_object}
use pve_meta.Error.{Error, invalid_path, Result, ok, err}
use pve_meta.Patch.{
  Touched, touch, set, delete, note_of, remove_key, apply_obj, apply_patch, diff_at, diff,
}

unfoldable pub blocked : DocPath → Error
blocked prefix = invalid_path (
    concat (DocPath.display prefix)
      ": a view prefix may only address into maps, never through an array or a scalar")

-- `prefix.parent()` with `prefix.last()`: both are there exactly for a path that is not the root
both : Option DocPath → Option String → Option (DocPath × String)
both (some p) (some s) = some (p, s)
both _ _ = none

unfoldable pub parent_and_key : DocPath → Option (DocPath × String)
unfolding both parent last
parent_and_key prefix = both (parent prefix) (last prefix)

module _ {N : Type 0} where
  -- the loop of `descend`, `path` being what an error names
  unfoldable pub descend_from : DocPath → Value N → List String → Result (Option (Value N))
  unfolding get blocked
  descend_from path cur [] = ok (some cur)
  descend_from path (object map) (seg ∷ segs) = elim (get seg map) [
    | none ↦ ok none
    | some v ↦ descend_from path v segs
  ]
  descend_from path cur (seg ∷ segs) = err (blocked path)

  unfoldable pub descend : Value N → DocPath → Result (Option (Value N))
  unfolding descend_from
  descend doc path = descend_from path doc path.segments

  -- `descend_mut`: `act` is what the caller does with the value at the path, whose new content is
  -- stored where the value stood. `absent` is the caller's answer where nothing is there.
  unfoldable pub with_existing {ℓ} :
      {A : Type ℓ}
      → DocPath
      → A
      → (Value N → Value N × Result A)
      → Value N
      → List String
      → Value N × Result A
  unfolding get insert blocked
  with_existing path absent act cur [] = act cur
  with_existing path absent act (object map) (seg ∷ segs) = elim (get seg map) [
    | none ↦ (object map, ok absent)
    | some v ↦ let (v', r) = with_existing path absent act v segs in (object (insert seg v' map), r)
  ]
  with_existing path absent act cur (seg ∷ segs) = (cur, err (blocked path))

  -- `entry(seg).or_insert_with(..)`, for the value that is then in the map
  pub or_empty : Option (Value N) → Value N
  or_empty none = object end
  or_empty (some v) = v

  -- `descend_creating`: `act` is what the caller does with the map at the path.
  unfoldable pub with_created {ℓ} :
      {A : Type ℓ}
      → DocPath
      → (Fields N → Fields N × A)
      → Value N
      → List String
      → Value N × Result A
  unfolding or_empty get insert blocked
  with_created path act (object map) [] = let (map', a) = act map in (object map', ok a)
  with_created path act (object map) (seg ∷ segs) =
      let (v', r) = with_created path act (or_empty (get seg map)) segs in
      (object (insert seg v' map), r)
  with_created path act cur segs = (cur, err (blocked path))

  unfoldable pub extract : Value N → DocPath → Result (Option (Value N))
  unfolding descend
  extract doc prefix = descend doc prefix

module _ {N : Type 0} ⦃e : Eq N⦄ where
  -- what a replaced value and a created one are reported as
  unfoldable pub replaced_paths : Option (Value N) → Value N → DocPath → List Touched
  replaced_paths (some old) subtree prefix = diff_at old subtree prefix
  replaced_paths none subtree prefix =
      let touched = diff_at (object end) subtree prefix in
      if is_empty touched then touch prefix set ∷ [] else touched

  unfoldable pub replace_key : DocPath → String → Value N → Fields N → Fields N × List Touched
  unfolding replaced_paths get insert
  replace_key prefix key subtree map =
      (insert key subtree map, replaced_paths (get key map) subtree prefix)

  unfoldable pub replace : Value N → DocPath → Value N → Value N × Result (List Touched)
  unfolding replace_key with_created
  replace doc prefix subtree = elim (parent_and_key prefix) [
    | none ↦ (subtree, ok (diff doc subtree))
    | some (parent_path, key) ↦
        with_created parent_path (replace_key prefix key subtree) doc parent_path.segments
  ]

  -- the object that the patch is applied to
  unfoldable pub scratch_of : Option (Value N) → Value N
  scratch_of (some (object m)) = object m
  scratch_of _ = object end

  -- A value that is no object becomes one, which is a change in itself.
  unfoldable pub merged_paths : Option (Value N) → DocPath → List Touched → List Touched
  merged_paths existing prefix touched =
      if is_some existing && not (is_object (or_empty existing)) && is_empty touched
      then touch prefix set ∷ []
      else touched

  -- `merge` below the root, once the descent has answered what is at the path.
  unfoldable pub merge_at :
      Value N
      → DocPath
      → DocPath
      → String
      → Value N
      → Option (Value N)
      → Value N × Result (List Touched)
  unfolding scratch_of merged_paths with_created insert
  merge_at doc prefix parent_path key patch existing =
      let (scratch, pushed) = apply_obj (scratch_of existing) patch prefix in
      let touched = merged_paths existing prefix pushed in
      if is_empty touched
      then (doc, ok [])
      else with_created parent_path (λ map. (insert key scratch map, touched)) doc
          parent_path.segments

  unfoldable pub or_fail {ℓ} :
      {A B : Type ℓ} → Value N → (A → Value N × Result B) → Result A → Value N × Result B
  or_fail doc go (ok a) = go a
  or_fail doc go (err x) = (doc, err x)

  unfoldable pub merge : Value N → DocPath → Value N → Value N × Result (List Touched)
  unfolding merge_at or_fail
  merge doc prefix patch = elim (parent_and_key prefix) [
    | none ↦ let (doc', touched) = apply_patch doc patch in (doc', ok touched)
    | some (parent_path, key) ↦
        or_fail doc (merge_at doc prefix parent_path key patch) (descend doc prefix)
  ]

  -- what the removed value is reported as
  unfoldable pub removed_paths : Option (Value N) → DocPath → List Touched
  removed_paths (some (object old)) prefix =
      let below = diff_at (object old) (object end) prefix in
      if is_empty below then touch prefix delete ∷ [] else below
  removed_paths (some v) prefix = touch prefix delete ∷ []
  removed_paths none prefix = []

  -- the note first, then the key
  unfoldable pub remove_from :
      DocPath → DocPath → String → Value N → Value N × Result (List Touched)
  unfolding removed_paths remove_key get shift_remove note_of blocked
  remove_from prefix parent_path key (object map) =
      let (map', touched) = remove_key (note_of key) (child parent_path (note_of key)) map in
      (object (shift_remove key map'), ok (touched ++ removed_paths (get key map') prefix))
  remove_from prefix parent_path key v = (v, err (blocked prefix))

  unfoldable pub remove : Value N → DocPath → Value N × Result (List Touched)
  unfolding remove_from with_existing
  remove doc prefix = elim (parent_and_key prefix) [
    | none ↦ (object end, ok (diff doc (object end)))
    | some (parent_path, key) ↦
        with_existing parent_path [] (remove_from prefix parent_path key) doc parent_path.segments
  ]
