-- ===== src/View/Removals.antt =====
-- What a removal leaves: neither the key nor the note about it, and all else as it was.
use pve_meta.Shared.{
  String, true, false, Option, none, some, List, [], ◌∷◌, ◌++◌, ◌≡◌, refl, arith, Eq, Bool-cases,
  inl, inr, if◌then◌else◌, ◌∙◌, str_eq, eq_iff, eq_refl,
}
use pve_meta.DocPath.{DocPath, child, all_equal}
use pve_meta.Json.{Value, null, object, Fields, get, shift_remove, contains_key}
use pve_meta.Json.Maps.{get-shift_remove}
use pve_meta.Error.{Result, ok}
use pve_meta.Patch.{note_of, remove_key}
use pve_meta.DocPath.{is_prefix_of}
use pve_meta.DocPath.Segments.{parent-child}
use pve_meta.View.Writes.{AreApart}
use pve_meta.View.{parent_and_key, both, descend_from, with_existing, extract, remove, remove_from}
use pve_meta.View.Descent.{
  is_ok, descend-step, descend-insert_self, descend-insert_ne, all_equal_tail,
}
use pve_meta.View.Steps.{existing-step, existing_option, remove_below}

module _ {N : Type 0} {A : Type 0} (path q : DocPath) (absent : A)
    (act : Value N → Value N × Result A) where
  -- What `act` takes out of every value is not there after the walk.
  module _ (key : String)
      (gone : (v : Value N)
        → is_ok (act v).1 ≡ true
        → descend_from q (act v).0 (key ∷ []) ≡ ok none) where
    gone_at :
        (map : Fields N) (s : String) (segs : List String) (o : Option (Value N))
        → get s map ≡ o
        → ((v : Value N)
            → is_ok (with_existing path absent act v segs).1 ≡ true
            → descend_from q (with_existing path absent act v segs).0 (segs ++ key ∷ []) ≡ ok none)
        → is_ok (existing_option path absent act s map o segs).1 ≡ true
        → descend_from q (existing_option path absent act s map o segs).0 (s ∷ (segs ++ key ∷ []))
          ≡ ok none
    gone_at map s segs none there ih h = rw (descend-step, there)
    gone_at map s segs (some v) there ih h =
        descend-insert_self q s _ map (segs ++ key ∷ []) ∙ ih v h

    existing_gone :
        (doc : Value N) (segs : List String)
        → is_ok (with_existing path absent act doc segs).1 ≡ true
        → descend_from q (with_existing path absent act doc segs).0 (segs ++ key ∷ []) ≡ ok none
    existing_gone doc [] h = unfold with_existing in gone doc h
    existing_gone (object map) (s ∷ segs) h = rw (existing-step path absent act map s segs) (
        gone_at map s segs (get s map) refl (λ v. existing_gone v segs)
          (rw (existing-step path absent act map s segs) at h))
    existing_gone null (s ∷ segs) h = unfold with_existing in cc
    existing_gone _ (s ∷ segs) h = unfold with_existing in cc

  -- What `act` reads the same of in every value reads the same after the walk.
  module _ (key note : String)
      (local : (v : Value N) (o : String) (os : List String)
        → str_eq key o ≡ false
        → str_eq note o ≡ false
        → descend_from q (act v).0 (o ∷ os) ≡ descend_from q v (o ∷ os)) where
    frame_at :
        (map : Fields N) (s : String) (segs os : List String) (o : Option (Value N))
        → get s map ≡ o
        → ((v : Value N)
            → descend_from q (with_existing path absent act v segs).0 os ≡ descend_from q v os)
        → descend_from q (existing_option path absent act s map o segs).0 (s ∷ os)
          ≡ descend_from q (object map) (s ∷ os)
    frame_at map s segs os none there ih = refl
    frame_at map s segs os (some v) there ih =
        descend-insert_self q s _ map os ∙ ih v ∙ rw (descend-step, there)

    other_at :
        (map : Fields N) (s o : String) (segs os : List String) (found : Option (Value N))
        → str_eq s o ≡ false
        → descend_from q (existing_option path absent act s map found segs).0 (o ∷ os)
          ≡ descend_from q (object map) (o ∷ os)
    other_at map s o segs os none h = refl
    other_at map s o segs os (some v) h = descend-insert_ne q s o _ map os h

    existing_frame :
        (doc : Value N) (segs other : List String)
        → all_equal (segs ++ key ∷ []) other ≡ false
        → all_equal (segs ++ note ∷ []) other ≡ false
        → all_equal other (segs ++ key ∷ []) ≡ false
        → descend_from q (with_existing path absent act doc segs).0 other ≡ descend_from q doc other
    existing_frame doc segs [] h g k = unfold all_equal in cc
    existing_frame doc [] (o ∷ os) h g k =
        unfold with_existing in
        local doc o os (unfold all_equal in ground arith) (unfold all_equal in ground arith)
    existing_frame (object map) (s ∷ segs) (o ∷ os) h g k = elim (Bool-cases (str_eq s o)) [
      | inl same ↦
          let h' = all_equal_tail s o (segs ++ key ∷ []) os h same in
          let g' = all_equal_tail s o (segs ++ note ∷ []) os g same in
          let k' =
            all_equal_tail o s os (segs ++ key ∷ []) k (rw ((eq_iff s o).0 same) (eq_refl o)) in
          rw (← (eq_iff s o).0 same, existing-step path absent act map s segs)
            (frame_at map s segs os (get s map) refl (λ v. existing_frame v segs os h' g' k'))
      | inr other ↦
          rw (existing-step path absent act map s segs) (other_at map s o segs os (get s map) other)
    ]
    existing_frame null (s ∷ segs) (o ∷ os) h g k = unfold with_existing in refl
    existing_frame _ (s ∷ segs) (o ∷ os) h g k = unfold with_existing in refl

module _ {N : Type 0} ⦃e : Eq N⦄ (prefix p q : DocPath) (key : String) where
  get-remove_key :
      (k j : String) (path : DocPath) (map : Fields N)
      → get j (remove_key k path map).0 ≡ (if str_eq k j then none else get j map)
  unfolding remove_key contains_key
  get-remove_key k j path map = ground (arith, get-shift_remove k j map, eq_iff k j)

  left_in :
      (j : String) (map : Fields N)
      → get j (shift_remove key (remove_key (note_of key) (child p (note_of key)) map).0)
        ≡ (if str_eq key j then none else if str_eq (note_of key) j then none else get j map)
  left_in j map = rw (get-shift_remove, get-remove_key)

  remove_from-object :
      (map : Fields N)
      → (remove_from prefix p key (object map)).0
        ≡ object (shift_remove key (remove_key (note_of key) (child p (note_of key)) map).0)
  unfolding remove_from
  remove_from-object map = refl

  remove_from_gone :
      (v : Value N)
      → is_ok (remove_from prefix p key v).1 ≡ true
      → (descend_from q (remove_from prefix p key v).0 (key ∷ []) ≡ ok none)
        × (descend_from q (remove_from prefix p key v).0 (note_of key ∷ []) ≡ ok none)
  remove_from_gone (object map) h = rw (remove_from-object map) (
    rw (descend-step, left_in) (ground (arith, eq_refl key)),
    rw (descend-step, left_in) (ground (arith, eq_refl (note_of key))),
  )
  remove_from_gone null h = unfold remove_from in cc
  remove_from_gone _ h = unfold remove_from in cc

  remove_from_local :
      (v : Value N) (o : String) (os : List String)
      → str_eq key o ≡ false
      → str_eq (note_of key) o ≡ false
      → descend_from q (remove_from prefix p key v).0 (o ∷ os) ≡ descend_from q v (o ∷ os)
  remove_from_local (object map) o os h g =
      rw (remove_from-object map, descend-step q map o os, descend-step, left_in, h, g)
  remove_from_local null o os h g = unfold remove_from in refl
  remove_from_local _ o os h g = unfold remove_from in refl

module _ {N : Type 0} ⦃e : Eq N⦄ (doc : Value N) (p : DocPath) (key : String) where
  remove-child :
      remove doc (child p key) ≡ with_existing p [] (remove_from (child p key) p key) doc p.segments
  remove-child =
      let (above, here) = parent-child p key in
      remove_below (child p key) p key (unfold parent_and_key both in rw (above, here)) doc

  -- After a removal below the root that is not refused neither the key nor the note about it is
  -- found.
  pub extract-remove :
      is_ok (remove doc (child p key)).1 ≡ true
      → (extract (remove doc (child p key)).0 (child p key) ≡ ok none)
        × (extract (remove doc (child p key)).0 (child p (note_of key)) ≡ ok none)
  extract-remove h =
      let h' = rw remove-child at h in
      rw remove-child (
        unfold extract child in
        (
          existing_gone p _ [] _ key (λ v w. (remove_from_gone _ p _ key v w).0) doc p.segments h',
          existing_gone p _ [] _ (note_of key) (λ v w. (remove_from_gone _ p _ key v w).1) doc
              p.segments h',
        ))

  -- A read at a path apart from the removed key, and not below its note, finds what it found before.
  pub extract-remove_apart :
      (other : DocPath)
      → AreApart (child p key) other
      → is_prefix_of (child p (note_of key)) other ≡ false
      → extract (remove doc (child p key)).0 other ≡ extract doc other
  extract-remove_apart other (h, k) g = rw remove-child (
      unfold extract child is_prefix_of in
      existing_frame p other [] _ key (note_of key) (remove_from_local _ p other key) doc p.segments
        other.segments h g k)
