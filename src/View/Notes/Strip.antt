-- ===== src/View/Notes/Strip.antt =====
-- Reads without notes.
use pve_meta.Shared.{
  String, Bool, true, false, ◌||◌, Option, none, some, List, [], ◌∷◌, any, ◌≡◌, ◌≢◌, refl, arith,
  if◌then◌else◌, ap, Bool-cases, inl, inr, eq_iff,
}
use pve_meta.DocPath.{DocPath}
use pve_meta.Json.{
  Value, null, bool, number, string, array, object, Items, nil, cons, Fields, end, field, get,
  is_object, is_string,
}
use pve_meta.Model.{is_comment_key, lint}
use pve_meta.Model.Clean.{IsClean, AreClean, IsCleanMap, lint_iff}
use pve_meta.Error.{Result, ok, err}
use pve_meta.View.{descend_from, extract}
use pve_meta.View.Descent.{descend_option, descend-step}
use pve_meta.View.Notes.{names_comment, strip_comments, strip_items, strip_fields}

module _ {N : Type 0} where
  mutual
    unfolding strip_comments

    strip_idem : (v : Value N) → strip_comments (strip_comments v) ≡ strip_comments v
    strip_idem (object map) = ap object (strip_fields_idem map)
    strip_idem (array items) = ap array (strip_items_idem items)
    strip_idem null = refl
    strip_idem (bool b) = refl
    strip_idem (number n) = refl
    strip_idem (string s) = refl

    strip_items_idem : (items : Items N) → strip_items (strip_items items) ≡ strip_items items
    strip_items_idem nil = refl
    strip_items_idem (cons v items) = rw (strip_idem v, strip_items_idem items)

    strip_fields_idem : (map : Fields N) → strip_fields (strip_fields map) ≡ strip_fields map
    strip_fields_idem end = refl
    strip_fields_idem (field k v map) = elim (Bool-cases (is_comment_key k)) [
      | inl note ↦ rw note (strip_fields_idem map)
      | inr plain ↦ rw (plain, plain, strip_idem v, strip_fields_idem map)
    ]

  abbrev pub stripped : Option (Value N) → Option (Value N)
  stripped none = none
  stripped (some v) = some (strip_comments v)

  -- A stripped map has the stripped values of the keys that are no comment keys.
  pub get-strip_fields :
      (k : String) (map : Fields N)
      → get k (strip_fields map) ≡ (if is_comment_key k then none else stripped (get k map))
  unfolding strip_comments get
  get-strip_fields k end = ground arith
  get-strip_fields k (field j v map) = ground (arith, get-strip_fields k map, eq_iff j k)

  abbrev pub stripped_read : Result (Option (Value N)) → Result (Option (Value N))
  stripped_read (ok found) = ok (stripped found)
  stripped_read (err x) = err x

  strip_object : (map : Fields N) → strip_comments (object map) ≡ object (strip_fields map)
  unfolding strip_comments
  strip_object map = refl

  is_string-strip : (v : Value N) → is_string (strip_comments v) ≡ is_string v
  unfolding strip_comments
  is_string-strip null = refl
  is_string-strip _ = refl

  is_object-strip : (v : Value N) → is_object (strip_comments v) ≡ is_object v
  unfolding strip_comments
  is_object-strip null = refl
  is_object-strip _ = refl

  option_stripped :
      (path : DocPath) (o : Option (Value N)) (segs : List String)
      → ((v : Value N)
          → descend_from path (strip_comments v) segs ≡ stripped_read (descend_from path v segs))
      → descend_option path (stripped o) segs ≡ stripped_read (descend_option path o segs)
  option_stripped path none segs ih = refl
  option_stripped path (some v) segs ih = ih v

  descend_stripped :
      (path : DocPath) (doc : Value N) (segs : List String)
      → any is_comment_key segs ≡ false
      → descend_from path (strip_comments doc) segs ≡ stripped_read (descend_from path doc segs)
  descend_stripped path doc [] h = unfold descend_from in refl
  descend_stripped path (object map) (s ∷ segs) h =
      let plain : is_comment_key s ≡ false = ground arith in
      let rest : any is_comment_key segs ≡ false = ground arith in
      rw
        (
          strip_object map,
          descend-step path map s segs,
          descend-step path (strip_fields map) s segs,
          get-strip_fields s map,
          plain,
        )
        (option_stripped path (get s map) segs (λ v. descend_stripped path v segs rest))
  descend_stripped path null (s ∷ segs) h = unfold strip_comments descend_from in refl
  descend_stripped path _ (s ∷ segs) h = unfold strip_comments descend_from in refl

  -- Reading a path that names no note gives the same from the document without its notes as from
  -- the document, but for the notes inside what is read; a refusal included.
  pub extract-strip_comments :
      (doc : Value N) (path : DocPath)
      → names_comment path ≡ false
      → extract (strip_comments doc) path ≡ stripped_read (extract doc path)
  unfolding extract names_comment
  extract-strip_comments doc path h = descend_stripped path doc path.segments h

  option_not_found :
      (path : DocPath) (note : Bool) (o : Option (Value N)) (segs : List String) (v : Value N)
      → (note || any is_comment_key segs) ≡ true
      → ((w : Value N)
          → any is_comment_key segs ≡ true
          → descend_from path (strip_comments w) segs ≢ ok (some v))
      → descend_option path (if note then none else stripped o) segs ≢ ok (some v)
  option_not_found path true o segs v h ih = λ q. cc
  option_not_found path false none segs v h ih = λ q. cc
  option_not_found path false (some w) segs v h ih = ih w h

  note_not_found_at :
      (path : DocPath) (doc v : Value N) (segs : List String)
      → any is_comment_key segs ≡ true
      → descend_from path (strip_comments doc) segs ≢ ok (some v)
  note_not_found_at path doc v [] h = λ q. cc
  note_not_found_at path (object map) v (s ∷ segs) h =
      rw (strip_object map, descend-step path (strip_fields map) s segs, get-strip_fields s map)
        (option_not_found path (is_comment_key s) (get s map) segs v h
          (λ w rest. note_not_found_at path w v segs rest))
  note_not_found_at path null v (s ∷ segs) h = unfold strip_comments descend_from in λ q. cc
  note_not_found_at path _ v (s ∷ segs) h = unfold strip_comments descend_from in λ q. cc

  -- A path that names a note finds nothing in a document without its notes.
  pub note_not_found :
      (doc v : Value N) (path : DocPath)
      → names_comment path ≡ true
      → extract (strip_comments doc) path ≢ ok (some v)
  unfolding extract names_comment
  note_not_found doc v path h = note_not_found_at path doc v path.segments h

  mutual
    unfolding strip_comments

    IsClean-strip : (v : Value N) → IsClean v → IsClean (strip_comments v)
    IsClean-strip null h = h
    IsClean-strip (array items) h = AreClean-strip items h
    IsClean-strip (object map) h = IsCleanMap-strip map h
    IsClean-strip _ h = tt

    AreClean-strip : (items : Items N) → AreClean items → AreClean (strip_items items)
    AreClean-strip nil h = tt
    AreClean-strip (cons v items) (h, hs) = (IsClean-strip v h, AreClean-strip items hs)

    IsCleanMap-strip : (map : Fields N) → IsCleanMap map → IsCleanMap (strip_fields map)
    IsCleanMap-strip end h = tt
    IsCleanMap-strip (field k v map) (a, h, hs) = elim (Bool-cases (is_comment_key k)) [
      | inl note ↦ rw note (IsCleanMap-strip map hs)
      | inr plain ↦ rw plain (rw (is_string-strip v) a, IsClean-strip v h, IsCleanMap-strip map hs)
    ]

  -- What is read without notes passes the lint if the document does.
  pub lint-strip_comments : (doc : Value N) → lint doc ≡ [] → lint (strip_comments doc) ≡ []
  lint-strip_comments doc h =
      let (an_object, clean) = (lint_iff doc).0 h in
      (lint_iff (strip_comments doc)).1
        (rw (is_object-strip doc) an_object, IsClean-strip doc clean)

  -- Leaving the notes out twice is leaving them out once.
  pub strip_comments_idem : (v : Value N) → strip_comments (strip_comments v) ≡ strip_comments v
  strip_comments_idem v = strip_idem v
