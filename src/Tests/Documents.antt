-- ===== src/Tests/Documents.antt =====
-- The lint at concrete documents.
use pve_meta.Shared.{ℕ, ◌≡◌, ◌↔◌, refl, true, [], ◌∷◌, length, some}
use pve_meta.Json.{Value, field, null, string, object, array, cons, nil, is_object}
use pve_meta.Shared.Decimal.{parse_unsigned}
use pve_meta.Model.{lint, is_valid_key, is_comment_key, get_path}
use pve_meta.Model.Clean.{IsClean, lint_iff}
use pve_meta.Tests.Numbers.{num, one}

abbrev pub noted : Value ℕ
noted =
    object
      (field "__" (string "doc comment") (field "foo" (num 1) (one "foo__" (string "about foo"))))

abbrev nulls : Value ℕ
nulls = object (
    field "a" null
      (field "b" (object (one "c" null)) (one "d" (array (cons (num 1) (cons null nil))))))

accepts_comment_keys : lint noted ≡ []
unfolding lint is_valid_key is_comment_key
accepts_comment_keys = refl

rejects_null_anywhere : length (lint nulls) ≡ 3
unfolding lint is_valid_key is_comment_key
rejects_null_anywhere = refl

traverses_objects_and_arrays :
    get_path
      (object (one "a" (array (cons (num 10) (cons (object (one "c" (num 30))) nil)))))
      (record { segments = "a" ∷ "1" ∷ "c" ∷ [] })
    ≡ some (num 30)
unfolding get_path parse_unsigned
traverses_objects_and_arrays = refl

lint_iff_example : (lint nulls ≡ []) ↔ ((is_object nulls ≡ true) × IsClean nulls)
lint_iff_example = lint_iff nulls
