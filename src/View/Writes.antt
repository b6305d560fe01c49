-- ===== src/View/Writes.antt =====
-- What a read finds after a write: at the path that was written, and elsewhere.
use pve_meta.Shared.{
  String, true, false, some, List, [], ◌∷◌, ◌++◌, ◌≡◌, refl, Eq, inl, inr, ◌∙◌, eq_refl,
}
use pve_meta.DocPath.{DocPath, all_equal, is_prefix_of}
use pve_meta.Json.{Value, Fields, insert}
use pve_meta.Json.Maps.{get-insert}
use pve_meta.Error.{ok}
use pve_meta.View.{descend_from, with_created, extract, replace, replace_key}
use pve_meta.View.Descent.{is_ok, created_refused, created-descend, created_frame, descend-step}
use pve_meta.View.Steps.{view_cases, extract_root, extract_below, replace_root, replace_below}

-- Neither path lies above the other, or is the other.
abbrev pub AreApart : DocPath → DocPath → Type 0
AreApart p q = (is_prefix_of p q ≡ false) × (is_prefix_of q p ≡ false)

pub apart_segments :
    (p q parent_path : DocPath) (key : String)
    → AreApart p q
    → p.segments ≡ parent_path.segments ++ key ∷ []
    → (all_equal (parent_path.segments ++ key ∷ []) q.segments ≡ false)
      × (all_equal q.segments (parent_path.segments ++ key ∷ []) ≡ false)
unfolding is_prefix_of
apart_segments p q parent_path key (h, k) e = (rw e at h, rw e at k)

pub root_is_above : (p q : DocPath) → p.segments ≡ [] → is_prefix_of p q ≡ true
unfolding is_prefix_of all_equal
root_is_above p q e = rw e

module _ {N : Type 0} (path prefix : DocPath) (key : String) (v : Value N) where
  module _ {A : Type 0} (report : Fields N → A) where
    pub stored_read :
        (doc : Value N) (segs : List String)
        → is_ok (with_created path (λ map. (insert key v map, report map)) doc segs).1 ≡ true
        → descend_from prefix
            (with_created path (λ map. (insert key v map, report map)) doc segs).0
            (segs ++ key ∷ [])
          ≡ ok (some v)
    stored_read doc segs h =
        let (map, read, _) =
          created-descend path prefix (λ m. (insert key v m, report m)) doc segs (key ∷ []) h in
        read ∙ rw (descend-step, get-insert, eq_refl) (unfold descend_from in refl)

module _ {N : Type 0} ⦃e : Eq N⦄ where
  -- A read at the path that was replaced finds the value that was stored there.
  pub extract-replace :
      (doc : Value N) (prefix : DocPath) (subtree : Value N)
      → is_ok (replace doc prefix subtree).1 ≡ true
      → extract (replace doc prefix subtree).0 prefix ≡ ok (some subtree)
  extract-replace doc prefix subtree h = elim (view_cases prefix) [
    | inl (at_root, nothing) ↦
        rw (replace_root prefix at_root doc subtree) (extract_root prefix nothing subtree)
    | inr (p, key, below, segs) ↦
        rw (replace_below prefix p key below doc subtree, extract_below prefix p key segs)
          (unfold replace_key in
            stored_read p prefix key subtree _ doc p.segments
              (rw (replace_below prefix p key below doc subtree) at h))
  ]

  -- A read at a path apart from the one that was replaced finds what it found before, whether the
  -- replacement was refused or not.
  pub extract-replace_apart :
      (doc : Value N) (prefix other : DocPath) (subtree : Value N)
      → AreApart prefix other
      → extract (replace doc prefix subtree).0 other ≡ extract doc other
  extract-replace_apart doc prefix other subtree apart = elim (view_cases prefix) [
    | inl (at_root, nothing) ↦ cc (root_is_above prefix other nothing, apart.0)
    | inr (p, key, below, segs) ↦
        let (h, k) = apart_segments prefix other p key apart segs in
        rw (replace_below prefix p key below doc subtree) (
          unfold extract replace_key in
          created_frame p other _ key (λ m j ne. rw (get-insert, ne)) doc p.segments other.segments
            h k)
  ]

  -- A replacement that is refused has changed nothing.
  pub replace_refused :
      (doc : Value N) (prefix : DocPath) (subtree : Value N)
      → is_ok (replace doc prefix subtree).1 ≡ false
      → (replace doc prefix subtree).0 ≡ doc
  replace_refused doc prefix subtree h = elim (view_cases prefix) [
    | inl (at_root, nothing) ↦ cc (replace_root prefix at_root doc subtree)
    | inr (p, key, below, segs) ↦
        let step = replace_below prefix p key below doc subtree in
        rw step (created_refused p _ doc p.segments (rw step at h))
  ]
