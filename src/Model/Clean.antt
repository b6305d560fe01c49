-- ===== src/Model/Clean.antt =====
-- What the lint accepts: the documents with no null, valid keys, and texts under comment keys.
use pve_meta.Shared.{
  ℕ, ◌+◌, String, true, false, not, ◌&&◌, some, [], ◌≡◌, ◌↔◌, refl, arith, append-eq-nil, eq_iff,
  str_eq, Bool-cases, inl, inr,
}
use pve_meta.Shared.Decimal.{to_string}
use pve_meta.DocPath.{DocPath, root, child}
use pve_meta.Json.{
  Value, null, array, object, Items, nil, cons, Fields, end, field, get, insert, shift_remove,
  is_object, is_string,
}
use pve_meta.Json.Invariant.{MapInvariant}
use pve_meta.Model.{
  is_comment_key, is_valid_key, key_lint, key_finding, note_finding, walk, walk_items, walk_fields,
  lint,
}

module _ {N : Type 0} where
  -- a key that may stand over a value
  abbrev pub IsAllowed : String → Value N → Type 0
  IsAllowed k v = (is_valid_key k ≡ true) × ((is_comment_key k && not (is_string v)) ≡ false)

  abbrev mutual
    pub IsClean : Value N → Type 0
    IsClean null = ⊥
    IsClean (array items) = AreClean items
    IsClean (object f) = IsCleanMap f
    IsClean _ = Unit

    pub AreClean : Items N → Type 0
    AreClean nil = Unit
    AreClean (cons v items) = IsClean v × AreClean items

    pub IsCleanMap : Fields N → Type 0
    IsCleanMap end = Unit
    IsCleanMap (field k v f) = IsAllowed k v × IsClean v × IsCleanMap f

  findings-nil :
      (k : String) (v : Value N) (path : DocPath)
      → IsAllowed k v ↔ ((key_finding path (key_lint k) ≡ []) × (note_finding path k v ≡ []))
  unfolding key_lint key_finding note_finding
  findings-nil k v path = (λ h. ground arith, λ h. ground arith)

  mutual
    unfolding walk

    walk_sound : (v : Value N) (path : DocPath) → walk v path ≡ [] → IsClean v
    walk_sound null path h = cc
    walk_sound (array items) path h = walk_items_sound items 0 path h
    walk_sound (object f) path h = walk_fields_sound f path h
    walk_sound _ path h = tt

    walk_items_sound :
        (items : Items N) (i : ℕ) (path : DocPath) → walk_items items i path ≡ [] → AreClean items
    walk_items_sound nil i path h = tt
    walk_items_sound (cons v items) i path h =
        let (p, q) = append-eq-nil _ _ h in
        (walk_sound v (child path (to_string i)) p, walk_items_sound items (i + 1) path q)

    walk_fields_sound : (f : Fields N) (path : DocPath) → walk_fields f path ≡ [] → IsCleanMap f
    walk_fields_sound end path h = tt
    walk_fields_sound (field k v f) path h =
        let (p, q) = append-eq-nil _ _ h in
        let (r, s) = append-eq-nil _ _ q in
        let (t, u) = append-eq-nil _ _ s in
        (
          (findings-nil k v (child path k)).1 (p, r),
          walk_sound v (child path k) t,
          walk_fields_sound f path u,
        )

  mutual
    unfolding walk

    walk_complete : (v : Value N) (path : DocPath) → IsClean v → walk v path ≡ []
    walk_complete null path h = absurd h
    walk_complete (array items) path h = walk_items_complete items 0 path h
    walk_complete (object f) path h = walk_fields_complete f path h
    walk_complete _ path h = refl

    walk_items_complete :
        (items : Items N) (i : ℕ) (path : DocPath) → AreClean items → walk_items items i path ≡ []
    walk_items_complete nil i path h = refl
    walk_items_complete (cons v items) i path (h, hs) =
        rw (walk_complete v (child path (to_string i)) h)
          (walk_items_complete items (i + 1) path hs)

    walk_fields_complete : (f : Fields N) (path : DocPath) → IsCleanMap f → walk_fields f path ≡ []
    walk_fields_complete end path h = refl
    walk_fields_complete (field k v f) path (a, h, hs) =
        let (p, q) = (findings-nil k v (child path k)).0 a in
        rw (p, q, walk_complete v (child path k) h) (walk_fields_complete f path hs)

  -- The lint has no finding exactly on the objects with no null inside, whose keys are valid and
  -- whose comment keys hold texts, at any depth.
  pub lint_iff : (doc : Value N) → (lint doc ≡ []) ↔ ((is_object doc ≡ true) × IsClean doc)
  unfolding lint
  lint_iff (object f) =
      (λ h. (refl, walk_fields_sound f root h), λ (_, h). walk_fields_complete f root h)
  lint_iff doc = (λ h. cc, λ (o, _). cc)

  pub IsCleanMap-insert :
      (k : String) (v : Value N) (f : Fields N)
      → IsAllowed k v
      → IsClean v
      → IsCleanMap f
      → IsCleanMap (insert k v f)
  unfolding insert
  IsCleanMap-insert k v end a h hs = (a, h, tt)
  IsCleanMap-insert k v (field j w f) a h (b, g, hs) = elim (Bool-cases (str_eq j k)) [
    | inl same ↦ rw (same, (eq_iff j k).0 same) (a, h, hs)
    | inr other ↦ rw other (b, g, IsCleanMap-insert k v f a h hs)
  ]

  pub IsCleanMap-shift_remove :
      (k : String) (f : Fields N) → IsCleanMap f → IsCleanMap (shift_remove k f)
  unfolding shift_remove
  IsCleanMap-shift_remove k end hs = tt
  IsCleanMap-shift_remove k (field j w f) (b, g, hs) = elim (Bool-cases (str_eq j k)) [
    | inl same ↦ rw same (IsCleanMap-shift_remove k f hs)
    | inr other ↦ rw other (b, g, IsCleanMap-shift_remove k f hs)
  ]

  pub IsClean-get :
      (k : String) (v : Value N) (f : Fields N)
      → IsCleanMap f
      → get k f ≡ some v
      → IsAllowed k v × IsClean v
  unfolding get
  IsClean-get k v end hs e = cc
  IsClean-get k v (field j w f) (b, g, hs) e = elim (Bool-cases (str_eq j k)) [
    | inl same ↦ let found : w ≡ v = ground arith in rw (← (eq_iff j k).0 same, ← found) (b, g)
    | inr other ↦ IsClean-get k v f hs (ground arith)
  ]

-- The lint, as an invariant of maps.
abbrev pub passes_lint : (N : Type 0) → MapInvariant N
passes_lint N = record {
  Holds = IsCleanMap;
  Fits = λ k v. IsAllowed k v × IsClean v;
  AllowsObject = λ k. IsAllowed {N = N} k (object end);
  holds_empty = tt;
  holds_removed = IsCleanMap-shift_remove;
  holds_inserted = λ k v f (a, c) h. IsCleanMap-insert k v f a c h;
  object_fits = λ k f a h. (a, h);
  holds_inside = λ k f inner h e. (IsClean-get k (object inner) f h e).1;
}
