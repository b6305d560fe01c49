-- ===== src/Tests/Notes.antt =====
-- The notes of a document, and removals, on concrete documents.
use pve_meta.Shared.{ℕ, ◌≡◌, refl, [], ◌∷◌, none}
use pve_meta.Shared.Text.{strip_suffix}
use pve_meta.DocPath.{child, root, is_prefix_of}
use pve_meta.Json.{Value, field, string, object, get, contains_key}
use pve_meta.Error.{ok}
use pve_meta.Model.{is_comment_key}
use pve_meta.Patch.{note_of}
use pve_meta.View.{extract, remove, parent_and_key}
use pve_meta.View.Notes.{strip_comments, names_comment, keep_comments}
use pve_meta.View.Notes.Strip.{extract-strip_comments, stripped_read}
use pve_meta.View.Notes.Keep.{strip-keep_comments}
use pve_meta.View.Notes.Restore.{keep_comments-strip}
use pve_meta.View.Removals.{extract-remove, extract-remove_apart}
use pve_meta.Tests.Documents.{noted}
use pve_meta.Tests.Numbers.{nat_eq, num, one}
use pve_meta.Tests.Views.{at}

abbrev edited : Value ℕ
edited = object (field "new" (num 2) (one "foo" (num 3)))

-- The note goes behind the key it stood behind.
keeps_the_stored_notes :
    keep_comments noted edited
    ≡ object (
        field "__"
          (string "doc comment")
          (field "new" (num 2) (field "foo" (num 3) (one "foo__" (string "about foo")))))
unfolding keep_comments
keeps_the_stored_notes = refl

-- A note about a note that stands before it is not put back: its subject is not there yet.
abbrev note_first : Value ℕ
note_first =
    object (field "x____" (string "second") (field "x__" (string "first") (one "x" (num 1))))

drops_an_early_note :
    keep_comments note_first (strip_comments note_first)
    ≡ object (field "x__" (string "first") (one "x" (num 1)))
unfolding keep_comments strip_comments is_comment_key
drops_an_early_note = refl

keep_comments-strip_example : keep_comments noted (strip_comments noted) ≡ noted
unfolding get contains_key is_comment_key strip_suffix
keep_comments-strip_example =
    keep_comments-strip noted ((refl, refl, tt, (refl, tt, tt, (refl, refl, tt, tt))))

strip-keep_comments_example : strip_comments (keep_comments noted edited) ≡ strip_comments edited
strip-keep_comments_example = strip-keep_comments noted edited

extract-strip_comments_example :
    extract (strip_comments noted) (at ("foo" ∷ []))
    ≡ stripped_read (extract noted (at ("foo" ∷ [])))
unfolding names_comment is_comment_key
extract-strip_comments_example = extract-strip_comments noted (at ("foo" ∷ [])) refl

extract-remove_example :
    (extract (remove noted (child root "foo")).0 (child root "foo") ≡ ok none)
    × (extract (remove noted (child root "foo")).0 (child root (note_of "foo")) ≡ ok none)
unfolding remove child parent_and_key
extract-remove_example = extract-remove noted root "foo" refl

extract-remove_apart_example :
    extract (remove noted (child root "foo")).0 (at ("__" ∷ [])) ≡ extract noted (at ("__" ∷ []))
unfolding child is_prefix_of note_of
extract-remove_apart_example =
    extract-remove_apart noted root "foo" (at ("__" ∷ [])) (refl, refl) refl
