-- ===== src/Patch/Keeps.antt =====
-- Merge patches keep every invariant of maps that their values fit.
use pve_meta.Shared.{
  String, not, ◌||◌, Option, none, some, List, Eq, ◌≡◌, refl, Bool-cases, inl, inr, is_empty,
}
use pve_meta.DocPath.{DocPath, child}
use pve_meta.Json.{Value, null, object, Fields, end, field, get, contains_key}
use pve_meta.Json.Invariant.{MapInvariant}
use pve_meta.Patch.{
  Touched, note_of, object_at, remove_key, delete_entry, holds, set_entry, object_entry,
  apply_fields, apply_entry, apply_obj,
}
use pve_meta.Patch.Untouched.{object_at-get}

module _ {N : Type 0} (inv : MapInvariant N) where
  open inv use {
    Holds, Fits, AllowsObject, holds_empty, holds_removed, holds_inserted, object_fits,
    holds_inside,
  }

  -- A patch whose values fit where they would be stored. A delete marker may stand over any key.
  abbrev mutual
    pub IsFitPatch : Fields N → Type 0
    IsFitPatch end = Unit
    IsFitPatch (field k v f) = IsFitEntry v k × IsFitPatch f

    pub IsFitEntry : Value N → String → Type 0
    IsFitEntry null k = Unit
    IsFitEntry (object f) k = AllowsObject k × IsFitPatch f
    IsFitEntry v k = Fits k v

  remove_key-Holds :
      (k : String) (path : DocPath) (doc : Fields N) → Holds doc → Holds (remove_key k path doc).0
  unfolding remove_key
  remove_key-Holds k path doc h = elim (Bool-cases (contains_key k doc)) [
    | inl there ↦ rw there (holds_removed k doc h)
    | inr absent ↦ rw absent h
  ]

  delete_entry-Holds :
      (k : String) (patch : Fields N) (path : DocPath) (doc : Fields N)
      → Holds doc
      → Holds (delete_entry k patch path doc).0
  delete_entry-Holds k patch path doc h =
      let doc' = (remove_key k (child path k) doc).0 in
      let h' = remove_key-Holds k (child path k) doc h in
      elim (Bool-cases (contains_key (note_of k) patch)) [
        | inl named ↦ unfold delete_entry in rw named h'
        | inr unnamed ↦
            unfold delete_entry in
            rw unnamed (remove_key-Holds (note_of k) (child path (note_of k)) doc' h')
      ]

  module _ ⦃e : Eq N⦄ where
    set_entry-Holds :
        (k : String) (v : Value N) (path : DocPath) (doc : Fields N)
        → Fits k v
        → Holds doc
        → Holds (set_entry k v path doc).0
    unfolding set_entry
    set_entry-Holds k v path doc c h = elim (Bool-cases (holds (get k doc) v)) [
      | inl same ↦ rw same h
      | inr other ↦ rw other (holds_inserted k v doc c h)
    ]

    object_entry-Holds :
        (f : Fields N) (k : String) (path : DocPath) (recurse : Fields N → Fields N × List Touched)
        (doc : Fields N) (target : Option (Fields N))
        → AllowsObject k
        → ((d : Fields N) → Holds d → Holds (recurse d).0)
        → object_at k doc ≡ target
        → Holds doc
        → Holds (object_entry f k path recurse doc target).0
    unfolding object_entry
    object_entry-Holds f k path recurse doc (some t) a keep at h =
        let inside = holds_inside k doc t h (object_at-get k doc t at) in
        holds_inserted k (object (recurse t).0) doc (object_fits k _ a (keep t inside)) h
    object_entry-Holds end k path recurse doc none a keep at h =
        set_entry-Holds k (object end) path doc (object_fits k end a holds_empty) h
    object_entry-Holds (field j v f) k path recurse doc none a keep at h =
        elim (Bool-cases (contains_key k doc || not (is_empty (recurse end).1))) [
          | inl written ↦
              rw written (holds_inserted k _ doc (object_fits k _ a (keep end holds_empty)) h)
          | inr kept ↦ rw kept h
        ]

    mutual
      unfolding apply_fields

      pub apply_fields-Holds :
          (rest patch : Fields N) (path : DocPath) (doc : Fields N)
          → IsFitPatch rest
          → Holds doc
          → Holds (apply_fields rest patch path doc).0
      apply_fields-Holds end patch path doc c h = h
      apply_fields-Holds (field k v rest) patch path doc (c, cs) h =
          apply_fields-Holds rest patch path (apply_entry v k patch path doc).0 cs
            (apply_entry-Holds v k patch path doc c h)

      apply_entry-Holds :
          (v : Value N) (k : String) (patch : Fields N) (path : DocPath) (doc : Fields N)
          → IsFitEntry v k
          → Holds doc
          → Holds (apply_entry v k patch path doc).0
      apply_entry-Holds null k patch path doc c h = delete_entry-Holds k patch path doc h
      apply_entry-Holds (object f) k patch path doc (a, c) h =
          object_entry-Holds f k (child path k) (apply_fields f f (child path k)) doc
            (object_at k doc) a (λ d hd. apply_fields-Holds f f (child path k) d c hd) refl h
      apply_entry-Holds v k patch path doc c h = set_entry-Holds k v (child path k) doc c h

    pub apply_obj-Holds :
        (doc patch : Fields N) (path : DocPath)
        → IsFitPatch patch
        → Holds doc
        → (doc' : Fields N) × ((apply_obj (object doc) (object patch) path).0 ≡ object doc')
          × Holds doc'
    unfolding apply_obj
    apply_obj-Holds doc patch path c h =
        ((apply_fields patch patch path doc).0, refl, apply_fields-Holds patch patch path doc c h)
