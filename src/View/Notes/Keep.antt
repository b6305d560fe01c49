-- ===== src/View/Notes/Keep.antt =====
-- A replacement that keeps the notes changes nothing but notes.
use pve_meta.Shared.{
  ℕ, zero, suc, String, true, Option, none, some, List, [], ◌∷◌, ◌≡◌, refl, ap, ◌∙◌, arith, is_some,
}
use pve_meta.Shared.Text.{strip_suffix, strip_suffix-ends_with}
use pve_meta.Json.{Value, null, object, Fields, end, field, get, as_object}
use pve_meta.Model.{is_comment_key, comment_suffix}
use pve_meta.View.Notes.{
  strip_comments, strip_fields, insert_at, place_after, keep_note, keep_notes, old_object,
  keep_value, keep_fields, keep_comments,
}

pub strip_suffix-is_comment_key :
    (k : String) → is_some (strip_suffix comment_suffix k) ≡ is_comment_key k
unfolding is_comment_key
strip_suffix-is_comment_key k = strip_suffix-ends_with comment_suffix k

module _ {N : Type 0} where
  strip-insert_at :
      (i : ℕ) (k : String) (v : Value N) (out : Fields N)
      → is_comment_key k ≡ true
      → strip_fields (insert_at i k v out) ≡ strip_fields out
  unfolding insert_at strip_comments
  strip-insert_at zero k v out h = rw h
  strip-insert_at (suc i) k v end h = rw h
  strip-insert_at (suc i) k v (field j w out) h = rw (strip-insert_at i k v out h)

  strip-keep_note :
      (subject : Option String) (k : String) (v : Value N) (before : List String)
      (om out : Fields N)
      → is_some subject ≡ is_comment_key k
      → strip_fields (keep_note subject k v before om out) ≡ strip_fields out
  unfolding keep_note
  strip-keep_note none k v before om out h = refl
  strip-keep_note (some s) k v before om out h =
      ground (arith, strip-insert_at (place_after before out) k v out)

  strip-keep_notes :
      (rest : Fields N) (before : List String) (om out : Fields N)
      → strip_fields (keep_notes rest before om out) ≡ strip_fields out
  unfolding keep_notes
  strip-keep_notes end before om out = refl
  strip-keep_notes (field k v rest) before om out =
      strip-keep_notes rest (k ∷ before) om _
      ∙ strip-keep_note (strip_suffix comment_suffix k) k v before om out
          (strip_suffix-is_comment_key k)

  mutual
    unfolding keep_value strip_comments

    strip-keep_value :
        (v : Value N) (old : Option (Fields N))
        → strip_comments (keep_value v old) ≡ strip_comments v
    strip-keep_value (object nm) (some om) =
        ap object (strip-keep_notes om [] om (keep_fields nm om) ∙ strip-keep_fields nm om)
    strip-keep_value (object nm) none = refl
    strip-keep_value null old = refl
    strip-keep_value _ old = refl

    strip-keep_fields : (nm om : Fields N) → strip_fields (keep_fields nm om) ≡ strip_fields nm
    strip-keep_fields end om = refl
    strip-keep_fields (field k v nm) om =
        rw (strip-keep_value v (old_object (get k om)), strip-keep_fields nm om)

  -- Keeping the stored notes changes nothing but notes: without its notes the result is the new
  -- value without its notes.
  pub strip-keep_comments :
      (old new : Value N) → strip_comments (keep_comments old new) ≡ strip_comments new
  unfolding keep_comments
  strip-keep_comments old new = strip-keep_value new (as_object old)
