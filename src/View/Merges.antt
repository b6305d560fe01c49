-- ===== src/View/Merges.antt =====
-- What `merge` stores, what it leaves, and the merge that writes nothing.
use pve_meta.Shared.{
  String, true, false, Option, none, some, List, [], ◌∷◌, ◌++◌, ◌≡◌, ◌≢◌, refl, Eq, Bool-cases,
  is_empty, inl, inr, ap, arith, if◌then◌else◌,
}
use pve_meta.DocPath.{DocPath}
use pve_meta.Json.{Value, object, end, is_object, insert}
use pve_meta.Json.Maps.{get-insert}
use pve_meta.Error.{Result, ok, err}
use pve_meta.Patch.{Touched, apply_obj}
use pve_meta.Patch.Untouched.{apply_patch_untouched}
use pve_meta.View.{
  descend, with_created, extract, merge, merge_at, merged_paths, or_fail, scratch_of,
}
use pve_meta.View.Descent.{is_ok, created-descend, created_frame}
use pve_meta.View.Steps.{view_cases, extract_below, merge_root, merge_below}
use pve_meta.View.Writes.{AreApart, apart_segments, root_is_above, stored_read}

-- The value that is there, if it is a map, and else the empty map.
abbrev pub map_at : {N : Type 0} → Option (Value N) → Value N
map_at none = object end
map_at (some v) = if is_object v then v else object end

scratch-map_at :
    {N : Type 0} ⦃e : Eq N⦄ (existing : Option (Value N)) → scratch_of existing ≡ map_at existing
unfolding scratch_of
scratch-map_at none = refl
scratch-map_at (some v) = ground arith

module _ {N : Type 0} ⦃e : Eq N⦄ (doc : Value N) (prefix : DocPath) (patch : Value N) where
  -- the subtree that `merge` stores, and the paths that it reports, over what is there
  merged : Option (Value N) → Value N
  merged existing = (apply_obj (scratch_of existing) patch prefix).0

  reported : Option (Value N) → List Touched
  reported existing = merged_paths existing prefix (apply_obj (scratch_of existing) patch prefix).1

  module _ (p : DocPath) (key : String) where
    write : Option (Value N) → Value N × Result (List Touched)
    unfolding merged reported
    write existing =
        with_created p (λ map. (insert key (merged existing) map, reported existing)) doc p.segments

    merge_at_empty :
        (existing : Option (Value N))
        → is_empty (reported existing) ≡ true
        → merge_at doc prefix p key patch existing ≡ (doc, ok [])
    unfolding merge_at reported
    merge_at_empty existing h = rw h

    merge_at-write :
        (existing : Option (Value N))
        → is_empty (reported existing) ≡ false
        → merge_at doc prefix p key patch existing ≡ write existing
    unfolding merge_at write
    merge_at-write existing h = rw h

    write_reports :
        (existing : Option (Value N))
        → is_ok (write existing).1 ≡ true
        → (write existing).1 ≡ ok (reported existing)
    unfolding write
    write_reports existing h = (created-descend p prefix _ doc p.segments [] h).2

    merge_at_untouched :
        (r : Result (Option (Value N)))
        → (or_fail doc (merge_at doc prefix p key patch) r).1 ≡ ok []
        → (or_fail doc (merge_at doc prefix p key patch) r).0 ≡ doc
    unfolding or_fail
    merge_at_untouched (err x) h = refl
    merge_at_untouched (ok existing) h = elim (Bool-cases (is_empty (reported existing))) [
      | inl nothing ↦ rw (merge_at_empty existing nothing)
      | inr something ↦
          let h' = rw (merge_at-write existing something) at h in
          cc (write_reports existing (ap is_ok h'), h', something)
    ]

    merge_at_stored :
        (existing : Option (Value N)) (t : List Touched)
        → prefix.segments ≡ p.segments ++ key ∷ []
        → (or_fail doc (merge_at doc prefix p key patch) (ok existing)).1 ≡ ok t
        → t ≢ []
        → extract (or_fail doc (merge_at doc prefix p key patch) (ok existing)).0 prefix
          ≡ ok (some (merged existing))
    unfolding or_fail
    merge_at_stored existing t segs h written = elim (Bool-cases (is_empty (reported existing))) [
      | inl nothing ↦ let h' = rw (merge_at_empty existing nothing) at h in absurd (written (cc h'))
      | inr something ↦
          let h' = rw (merge_at-write existing something) at h in
          rw (merge_at-write existing something, extract_below prefix p key segs)
            (unfold write in
              stored_read p prefix key (merged existing) (λ _. reported existing) doc p.segments
                (ap is_ok h'))
    ]

    merge_at_frame :
        (r : Result (Option (Value N))) (other : DocPath)
        → AreApart prefix other
        → prefix.segments ≡ p.segments ++ key ∷ []
        → extract (or_fail doc (merge_at doc prefix p key patch) r).0 other ≡ extract doc other
    unfolding or_fail
    merge_at_frame (err x) other apart segs = refl
    merge_at_frame (ok existing) other apart segs =
        elim (Bool-cases (is_empty (reported existing))) [
          | inl nothing ↦ rw (merge_at_empty existing nothing)
          | inr something ↦
              let (h, k) = apart_segments prefix other p key apart segs in
              rw (merge_at-write existing something) (
                unfold extract write in
                created_frame p other _ key (λ m j ne. rw (get-insert, ne)) doc p.segments
                  other.segments h k)
        ]

  -- A merge that reports no touched path has changed nothing; in particular it has created no map
  -- on the way.
  pub merge_untouched : (merge doc prefix patch).1 ≡ ok [] → (merge doc prefix patch).0 ≡ doc
  merge_untouched h = elim (view_cases prefix) [
    | inl (at_root, nothing) ↦
        let step = merge_root prefix at_root doc patch in
        let h' = rw step at h in rw step (apply_patch_untouched doc patch (cc h'))
    | inr (p, key, below, segs) ↦
        let step = merge_below prefix p key below doc patch in
        rw step (merge_at_untouched p key (descend doc prefix) (rw step at h))
  ]

  -- A read at a path apart from the one that was merged into finds what it found before.
  pub extract-merge_apart :
      (other : DocPath)
      → AreApart prefix other
      → extract (merge doc prefix patch).0 other ≡ extract doc other
  extract-merge_apart other apart = elim (view_cases prefix) [
    | inl (at_root, nothing) ↦ cc (root_is_above prefix other nothing, apart.0)
    | inr (p, key, below, segs) ↦
        rw (merge_below prefix p key below doc patch)
          (merge_at_frame p key (descend doc prefix) other apart segs)
  ]

  -- Below the root, a merge that reports a touched path has stored the patch applied to the value
  -- that was at the path, if that was a map, and to the empty map if it was none or there was none.
  pub extract-merge :
      (existing : Option (Value N)) (t : List Touched)
      → prefix.segments ≢ []
      → extract doc prefix ≡ ok existing
      → (merge doc prefix patch).1 ≡ ok t
      → t ≢ []
      → extract (merge doc prefix patch).0 prefix
        ≡ ok (some (apply_obj (map_at existing) patch prefix).0)
  extract-merge existing t not_root there h written = elim (view_cases prefix) [
    | inl (at_root, nothing) ↦ absurd (not_root nothing)
    | inr (p, key, below, segs) ↦
        let step = merge_below prefix p key below doc patch in
        let found : descend doc prefix ≡ ok existing = unfold extract in there in
        let opened = rw (step, found) at h in
        rw (step, found, ← scratch-map_at existing)
          (unfold merged in merge_at_stored p key existing t segs opened written)
  ]
