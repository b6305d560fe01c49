-- ===== src/View/Notes/Restore.antt =====
-- A stripped read that is written back is the stored document.
use pve_meta.Shared.{
  suc, String, true, false, not, ◌&&◌, ◌||◌, Option, none, some, List, [], ◌∷◌, ◌≡◌, refl, sym, ap,
  ◌∙◌, arith, Bool-cases, inl, inr, is_some, any, str_eq, eq_iff, eq_refl, if◌then◌else◌,
}
use pve_meta.Shared.Text.{strip_suffix}
use pve_meta.Json.{
  Value, null, bool, number, string, array, object, Fields, end, field, get, contains_key,
  as_object, len,
}
use pve_meta.Model.{is_comment_key, comment_suffix}
use pve_meta.View.Notes.{
  strip_comments, strip_items, strip_fields, position, insert_at, place_after, is_alive, keep_note,
  keep_notes, old_object, keep_value, keep_fields, keep_comments,
}
use pve_meta.View.Notes.Keep.{strip_suffix-is_comment_key}

module _ {N : Type 0} where
  append : Fields N → Fields N → Fields N
  append end g = g
  append (field k v f) g = field k v (append f g)

  -- the entries that are no notes
  plain : Fields N → Fields N
  plain end = end
  plain (field k v f) = let rest = plain f in if is_comment_key k then rest else field k v rest

  plain_note :
      (k : String) (v : Value N) (f : Fields N)
      → is_comment_key k ≡ true
      → plain (field k v f) ≡ plain f
  unfolding plain
  plain_note k v f h = rw h

  get-append :
      (j : String) (f g : Fields N)
      → get j (append f g) ≡ (if is_some (get j f) then get j f else get j g)
  unfolding append get
  get-append j end g = refl
  get-append j (field k v f) g = ground (arith, get-append j f g)

  get-plain :
      (j : String) (f : Fields N) → get j (plain f) ≡ (if is_comment_key j then none else get j f)
  unfolding plain get
  get-plain j end = ground arith
  get-plain j (field k v f) = ground (arith, get-plain j f, eq_iff k j)

  append_assoc_one :
      (f : Fields N) (k : String) (v : Value N) (g : Fields N)
      → append (append f (field k v end)) g ≡ append f (field k v g)
  unfolding append
  append_assoc_one end k v g = refl
  append_assoc_one (field j w f) k v g = ap (field j w) (append_assoc_one f k v g)

  insert_at-len :
      (f g : Fields N) (k : String) (v : Value N)
      → insert_at (len f) k v (append f g) ≡ append f (field k v g)
  unfolding insert_at len append
  insert_at-len end g k v = refl
  insert_at-len (field j w f) g k v = ap (field j w) (insert_at-len f g k v)

  len-append_one :
      (f : Fields N) (k : String) (v : Value N) → len (append f (field k v end)) ≡ suc (len f)
  unfolding len append
  len-append_one end k v = refl
  len-append_one (field j w f) k v = ap suc (len-append_one f k v)

  position-len :
      (f g : Fields N) (k : String) (v : Value N)
      → get k f ≡ none
      → position k (append f (field k v g)) ≡ some (len f)
  unfolding position len append get
  position-len end g k v h = ground (arith, eq_refl k)
  position-len (field j w f) g k v h = ground (arith, position-len f g k v)

  -- The subject of a note: the map itself, a plain key of the map, or a note that comes before.
  abbrev pub HasSubject : Option String → List String → Fields N → Type 0
  HasSubject none before whole = Unit
  HasSubject (some s) before whole =
      (str_eq s "" || contains_key s whole && (not (is_comment_key s) || any (str_eq s) before))
      ≡ true

  -- A value whose maps have no key twice and no note without its subject, and whose arrays hold no
  -- notes.
  abbrev mutual
    pub IsTidy : Value N → Type 0
    IsTidy (object f) = IsTidyMap f [] f
    IsTidy (array items) = strip_items items ≡ items
    IsTidy _ = Unit

    pub IsTidyMap : Fields N → List String → Fields N → Type 0
    IsTidyMap end before whole = Unit
    IsTidyMap (field k v rest) before whole =
        (get k rest ≡ none)
        × HasSubject (strip_suffix comment_suffix k) before whole
        × IsTidy v
        × IsTidyMap rest (k ∷ before) whole

  -- What holds when the notes up to `pre` are back, the keys of `pre` being those before, last first.
  record IsBack (pre rest : Fields N) (before : List String) (whole : Fields N) : Type 0 where
    apart : (j : String) → is_some (get j rest) ≡ true → get j pre ≡ none
    placed : (g : Fields N) → place_after before (append pre g) ≡ len pre
    seen : (j : String) → any (str_eq j) before ≡ true → is_some (get j pre) ≡ true
    covered :
        (j : String)
        → is_comment_key j ≡ false
        → is_some (get j whole) ≡ true
        → is_some (get j (append pre (plain rest))) ≡ true

  module _ (pre rest whole : Fields N) (k : String) (v : Value N) (before : List String) where
    absent_before : IsBack pre (field k v rest) before whole → get k pre ≡ none
    absent_before back = back.apart k (unfold get in ground (arith, eq_refl k))

    note_absent :
        IsBack pre (field k v rest) before whole
        → is_comment_key k ≡ true
        → contains_key k (append pre (plain rest)) ≡ false
    unfolding contains_key
    note_absent back note =
        ground (arith, get-append k pre (plain rest), get-plain k rest, absent_before back)

    subject_alive :
        (s : String)
        → IsBack pre (field k v rest) before whole
        → is_comment_key k ≡ true
        → HasSubject (some s) before whole
        → is_alive s whole (append pre (plain rest)) ≡ true
    unfolding is_alive contains_key plain
    subject_alive s back note h =
        ground (arith, get-append s pre (plain rest), back.covered s, back.seen s)

    note_back :
        (s : String)
        → IsBack pre (field k v rest) before whole
        → is_comment_key k ≡ true
        → HasSubject (some s) before whole
        → keep_note (some s) k v before whole (append pre (plain rest))
          ≡ append pre (field k v (plain rest))
    unfolding keep_note
    note_back s back note h =
        rw (subject_alive s back note h, note_absent back note, back.placed (plain rest))
          (insert_at-len pre (plain rest) k v)

    entry_back :
        (subject : Option String)
        → is_some subject ≡ is_comment_key k
        → IsBack pre (field k v rest) before whole
        → HasSubject subject before whole
        → keep_note subject k v before whole (append pre (plain (field k v rest)))
          ≡ append (append pre (field k v end)) (plain rest)
    entry_back none same back h =
        rw (append_assoc_one pre k v (plain rest)) (unfold keep_note plain in rw (← same))
    entry_back (some s) same back h =
        rw (append_assoc_one pre k v (plain rest), plain_note k v rest (sym same))
          (note_back s back (sym same) h)

    last_placed :
        (g : Fields N)
        → IsBack pre (field k v rest) before whole
        → place_after (k ∷ before) (append pre (field k v g)) ≡ len (append pre (field k v end))
    unfolding place_after
    last_placed g back =
        ground (arith, position-len pre g k v (absent_before back), len-append_one pre k v)

    IsBack-next :
        get k rest ≡ none
        → IsBack pre (field k v rest) before whole
        → IsBack (append pre (field k v end)) rest (k ∷ before) whole
    IsBack-next fresh back = record {
      apart = λ j there.
          unfold get in ground (arith, get-append j pre (field k v end), back.apart j, eq_iff k j);
      placed = λ g. rw (append_assoc_one pre k v g) (last_placed g back);
      seen = λ j there.
          unfold get in
          ground (arith, get-append j pre (field k v end), back.seen j, eq_iff k j, eq_iff j k);
      covered = λ j plain_key there. rw (append_assoc_one pre k v (plain rest)) (
          unfold get plain in
          ground (
            arith,
            get-append j pre (field k v (plain rest)),
            get-append j pre (plain (field k v rest)),
            back.covered j,
            eq_iff k j,
          ));
    }

  keep_notes_step :
      (k : String) (v : Value N) (rest : Fields N) (before : List String) (om out : Fields N)
      → keep_notes (field k v rest) before om out
        ≡ keep_notes rest
            (k ∷ before)
            om
            (keep_note (strip_suffix comment_suffix k) k v before om out)
  unfolding keep_notes
  keep_notes_step k v rest before om out = refl

  -- The loop puts every note back where it stood.
  notes_back :
      (rest pre whole : Fields N) (before : List String)
      → IsTidyMap rest before whole
      → IsBack pre rest before whole
      → keep_notes rest before whole (append pre (plain rest)) ≡ append pre rest
  notes_back end pre whole before tidy back = unfold keep_notes plain in refl
  notes_back (field k v rest) pre whole before (fresh, subject, _, tidy) back =
      let entry =
        entry_back pre rest whole k v before _ (strip_suffix-is_comment_key k) back subject in
      rw (keep_notes_step, entry)
        (notes_back rest (append pre (field k v end)) whole (k ∷ before) tidy
            (IsBack-next pre rest whole k v before fresh back)
          ∙ append_assoc_one pre k v rest)

  -- At the start nothing is back yet.
  IsBack-start : (f : Fields N) → IsBack end f [] f
  IsBack-start f = record {
    apart = λ j there. unfold get in refl;
    placed = λ g. unfold place_after len in refl;
    seen = λ j there. cc;
    covered = λ j plain_key there. unfold append in ground (arith, get-plain j f);
  }

  all_notes_back : (f : Fields N) → IsTidyMap f [] f → keep_notes f [] f (plain f) ≡ f
  unfolding append
  all_notes_back f tidy = notes_back f end f [] tidy (IsBack-start f)

  first_found :
      (k : String) (v : Value N) (f whole : Fields N)
      → ((j : String) → is_some (get j (field k v f)) ≡ true → get j whole ≡ get j (field k v f))
      → get k whole ≡ some v
  unfolding get
  first_found k v f whole found = ground (arith, found k, eq_refl k)

  rest_found :
      (k : String) (v : Value N) (f whole : Fields N)
      → get k f ≡ none
      → ((j : String) → is_some (get j (field k v f)) ≡ true → get j whole ≡ get j (field k v f))
      → (j : String) → is_some (get j f) ≡ true
      → get j whole ≡ get j f
  unfolding get
  rest_found k v f whole fresh found j there = ground (arith, found j, eq_iff k j)

  mutual
    unfolding keep_value strip_comments plain old_object

    restore_value : (v : Value N) → IsTidy v → keep_value (strip_comments v) (as_object v) ≡ v
    restore_value (object f) tidy =
        ap object (rw (restore_fields f f [] tidy (λ j _. refl)) (all_notes_back f tidy))
    restore_value (array items) tidy = ap array tidy
    restore_value null tidy = refl
    restore_value (bool b) tidy = refl
    restore_value (number n) tidy = refl
    restore_value (string s) tidy = refl

    restore_fields :
        (f whole : Fields N) (before : List String)
        → IsTidyMap f before whole
        → ((j : String) → is_some (get j f) ≡ true → get j whole ≡ get j f)
        → keep_fields (strip_fields f) whole ≡ plain f
    restore_fields end whole before tidy found = refl
    restore_fields (field k v f) whole before (fresh, _, tidy_value, tidy) found =
        let ih = restore_fields f whole (k ∷ before) tidy (rest_found k v f whole fresh found) in
        elim (Bool-cases (is_comment_key k)) [
          | inl note ↦ rw note ih
          | inr plain_key ↦
              rw (plain_key, first_found k v f whole found, restore_value v tidy_value, ih)
        ]

  -- Replacing a tidy document by what a read without notes answers gives the document back, the
  -- notes in their old places. A document is tidy if no map has a key twice, no list holds a note,
  -- and every note is its map's own or has its subject in the map, before it if that is a note.
  pub keep_comments-strip :
      (doc : Value N) → IsTidy doc → keep_comments doc (strip_comments doc) ≡ doc
  unfolding keep_comments
  keep_comments-strip doc tidy = restore_value doc tidy
