-- ===== src/Patch/Untouched.antt =====
-- A patch that reports no touched path leaves the document as it is.
use pve_meta.Shared.{String, Option, none, some, List, [], Eq, ◌≡◌, refl, ap, arith, append-eq-nil}
use pve_meta.DocPath.{DocPath, root, child}
use pve_meta.Json.{Value, null, object, Fields, end, field, get}
use pve_meta.Json.Maps.{insert_present}
use pve_meta.Patch.{
  Touched, object_at, delete_entry, set_entry, object_entry, apply_fields, apply_entry, apply_patch,
}

module _ {N : Type 0} where
  delete_entry_untouched :
      (k : String) (patch : Fields N) (path : DocPath) (doc : Fields N)
      → (delete_entry k patch path doc).1 ≡ []
      → (delete_entry k patch path doc).0 ≡ doc
  unfolding delete_entry
  delete_entry_untouched k patch path doc h = ground arith

  pub object_at-get :
      (k : String) (doc f : Fields N) → object_at k doc ≡ some f → get k doc ≡ some (object f)
  unfolding object_at
  object_at-get k doc f h = ground arith

module _ {N : Type 0} ⦃e : Eq N⦄ where
  set_entry_untouched :
      (k : String) (v : Value N) (path : DocPath) (doc : Fields N)
      → (set_entry k v path doc).1 ≡ []
      → (set_entry k v path doc).0 ≡ doc
  unfolding set_entry
  set_entry_untouched k v path doc h = ground arith

  object_entry_untouched :
      (f : Fields N) (k : String) (path : DocPath) (recurse : Fields N → Fields N × List Touched)
      (doc : Fields N) (target : Option (Fields N))
      → ((d : Fields N) → (recurse d).1 ≡ [] → (recurse d).0 ≡ d)
      → object_at k doc ≡ target
      → (object_entry f k path recurse doc target).1 ≡ []
      → (object_entry f k path recurse doc target).0 ≡ doc
  unfolding object_entry
  object_entry_untouched f k path recurse doc (some t) same at h =
      rw (same t h) (insert_present k (object t) doc (object_at-get k doc t at))
  object_entry_untouched f k path recurse doc none same at h = ground arith

  mutual
    unfolding apply_fields

    apply_fields_untouched :
        (rest patch : Fields N) (path : DocPath) (doc : Fields N)
        → (apply_fields rest patch path doc).1 ≡ []
        → (apply_fields rest patch path doc).0 ≡ doc
    apply_fields_untouched end patch path doc h = refl
    apply_fields_untouched (field k v rest) patch path doc h =
        let (first, later) = append-eq-nil _ _ h in
        let same = apply_entry_untouched v k patch path doc first in
        rw same (apply_fields_untouched rest patch path doc (rw same at later))

    apply_entry_untouched :
        (v : Value N) (k : String) (patch : Fields N) (path : DocPath) (doc : Fields N)
        → (apply_entry v k patch path doc).1 ≡ []
        → (apply_entry v k patch path doc).0 ≡ doc
    apply_entry_untouched null k patch path doc h = delete_entry_untouched k patch path doc h
    apply_entry_untouched (object f) k patch path doc h =
        object_entry_untouched f k (child path k) (apply_fields f f (child path k)) doc
          (object_at k doc) (apply_fields_untouched f f (child path k)) refl h
    apply_entry_untouched v k patch path doc h = set_entry_untouched k v (child path k) doc h

  -- A merge patch that reports no touched path leaves the document as it is, its order included.
  pub apply_patch_untouched :
      (doc patch : Value N) → (apply_patch doc patch).1 ≡ [] → (apply_patch doc patch).0 ≡ doc
  unfolding apply_patch
  apply_patch_untouched (object doc) (object patch) h =
      ap object (apply_fields_untouched patch patch root doc h)
  apply_patch_untouched doc patch h = ground arith
