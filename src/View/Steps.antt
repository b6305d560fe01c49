-- ===== src/View/Steps.antt =====
-- The view operations at the root and below it, as equations.
use pve_meta.Shared.{List, Option, arith, String, none, some, [], ◌∷◌, ◌++◌, ◌≡◌, Eq, ◌⊎◌, inl, inr}
use pve_meta.DocPath.{DocPath}
use pve_meta.DocPath.Segments.{path_cases}
use pve_meta.Json.{Fields, get, insert, Value, object, end}
use pve_meta.Error.{Result, ok}
use pve_meta.Patch.{diff, apply_patch}
use pve_meta.View.{
  parent_and_key, descend_from, descend, with_existing, with_created, extract, replace, replace_key,
  merge, merge_at, or_fail, remove, remove_from,
}

-- The root, or a key below a parent, as the view operations take a path apart.
pub view_cases :
    (p : DocPath)
    → ((parent_and_key p ≡ none) × (p.segments ≡ []))
      ⊎ ((q : DocPath) × (s : String) × (parent_and_key p ≡ some (q, s))
          × (p.segments ≡ q.segments ++ s ∷ []))
unfolding parent_and_key
view_cases p = elim (path_cases p) [
  | inl (no_parent, e) ↦ inl (rw no_parent, e)
  | inr (q, s, has_parent, has_key, e) ↦ inr (q, s, rw (has_parent, has_key), e)
]

module _ {N : Type 0} (prefix : DocPath) where
  module _ (nothing : prefix.segments ≡ []) where
    pub extract_root : (doc : Value N) → extract doc prefix ≡ ok (some doc)
    unfolding extract
    extract_root doc = rw (nothing, descend_from)

  module _ (p : DocPath) (key : String) (segs : prefix.segments ≡ p.segments ++ key ∷ []) where
    pub descend_below :
        (doc : Value N) → descend doc prefix ≡ descend_from prefix doc (p.segments ++ key ∷ [])
    unfolding descend
    descend_below doc = rw segs

    pub extract_below :
        (doc : Value N) → extract doc prefix ≡ descend_from prefix doc (p.segments ++ key ∷ [])
    unfolding extract
    extract_below doc = rw segs

module _ {N : Type 0} ⦃e : Eq N⦄ (prefix : DocPath) where
  module _ (at_root : parent_and_key prefix ≡ none) where
    pub replace_root :
        (doc subtree : Value N) → replace doc prefix subtree ≡ (subtree, ok (diff doc subtree))
    unfolding replace
    replace_root doc subtree = rw (at_root, replace)

    pub remove_root : (doc : Value N) → remove doc prefix ≡ (object end, ok (diff doc (object end)))
    unfolding remove
    remove_root doc = rw (at_root, remove)

    pub merge_root :
        (doc patch : Value N)
        → merge doc prefix patch ≡ ((apply_patch doc patch).0, ok (apply_patch doc patch).1)
    unfolding merge
    merge_root doc patch = rw (at_root, merge)

  module _ (p : DocPath) (key : String) (below : parent_and_key prefix ≡ some (p, key)) where
    pub replace_below :
        (doc subtree : Value N)
        → replace doc prefix subtree
          ≡ with_created p (replace_key prefix key subtree) doc p.segments
    unfolding replace
    replace_below doc subtree = rw (below, replace)

    pub remove_below :
        (doc : Value N)
        → remove doc prefix ≡ with_existing p [] (remove_from prefix p key) doc p.segments
    unfolding remove
    remove_below doc = rw (below, remove)

    pub merge_below :
        (doc patch : Value N)
        → merge doc prefix patch
          ≡ or_fail doc (merge_at doc prefix p key patch) (descend doc prefix)
    unfolding merge
    merge_below doc patch = rw (below, merge)

module _ {N : Type 0} {A : Type 0} (path : DocPath) (absent : A)
    (act : Value N → Value N × Result A) where
  abbrev pub existing_option :
      String → Fields N → Option (Value N) → List String → Value N × Result A
  existing_option s map none segs = (object map, ok absent)
  existing_option s map (some v) segs =
      let (v', r) = with_existing path absent act v segs in (object (insert s v' map), r)

  -- One step of the walk that follows what is there.
  pub existing-step :
      (map : Fields N) (s : String) (segs : List String)
      → with_existing path absent act (object map) (s ∷ segs)
        ≡ existing_option s map (get s map) segs
  unfolding with_existing
  existing-step map s segs = ground arith
