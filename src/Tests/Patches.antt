-- ===== src/Tests/Patches.antt =====
-- The tests of patch.rs.
use pve_meta.Shared.{ℕ, ◌≡◌, refl, [], ◌∷◌}
use pve_meta.DocPath.{root, child}
use pve_meta.Json.{Value, Fields, end, field, null, string, object}
use pve_meta.Model.{lint, is_valid_key, is_comment_key}
use pve_meta.Patch.Untouched.{apply_patch_untouched}
use pve_meta.Patch.Clean.{apply_patch-lint}
use pve_meta.Patch.{
  apply_patch, delete_entry, set_entry, object_entry, object_at, diff, touch, set, delete,
}
use pve_meta.Tests.Numbers.{nat_eq, num, one}

abbrev doc : Value ℕ
doc = object (field "a" (object (field "b" (num 1) (one "c" (num 2)))) end)

abbrev patch : Value ℕ
patch = object (field "a" (object (field "b" (num 10) (one "d" (num 3)))) (one "e" (num 5)))

-- Setting what is there, and deleting what is not.
abbrev same_doc : Value ℕ
same_doc = object (field "a" (num 1) (one "b" (object (one "c" (num 2)))))

abbrev same_patch : Value ℕ
same_patch = object (field "b" (object (one "c" (num 2))) (field "gone" null (one "a" (num 1))))

abbrev deleting : Fields ℕ
deleting = field "a" (object (one "b" null)) (one "sub" (num 1))

sets_nested_and_new_keys : apply_patch doc patch ≡ (
  object (
      field "a"
        (object (field "b" (num 10) (field "c" (num 2) (one "d" (num 3)))))
        (one "e" (num 5))),
  touch (child (child root "a") "b") set
      ∷ touch (child (child root "a") "d") set
      ∷ touch (child root "e") set
      ∷ [],
)
unfolding apply_patch delete_entry set_entry object_entry object_at child
sets_nested_and_new_keys = refl

nested_delete_marker :
    apply_patch (object (one "a" (string "scalar"))) (object (one "a" (object (one "deep" null))))
    ≡ (object (one "a" (object end)), touch (child root "a") set ∷ [])
unfolding apply_patch delete_entry set_entry object_entry object_at child
nested_delete_marker = refl

deletes_in_an_absent_container :
    apply_patch (object (one "a" (num 1))) (object (one "sub" (object (one "gone" null))))
    ≡ (object (one "a" (num 1)), [])
unfolding apply_patch delete_entry set_entry object_entry object_at child
deletes_in_an_absent_container = refl

diff_sets_and_deletes :
    diff
      (object (field "d" (num 4) (one "gone" (num 1))))
      (object (field "d" (num 4) (one "new" (num 1))))
    ≡ touch (child root "new") set ∷ touch (child root "gone") delete ∷ []
unfolding diff child
diff_sets_and_deletes = refl

apply_patch_untouched_example : (apply_patch same_doc same_patch).0 ≡ same_doc
unfolding apply_patch delete_entry set_entry object_entry object_at
apply_patch_untouched_example = apply_patch_untouched same_doc same_patch refl

apply_patch-lint_example : lint (apply_patch doc (object deleting)).0 ≡ []
unfolding lint is_valid_key is_comment_key
apply_patch-lint_example =
    apply_patch-lint doc deleting refl (((refl, refl), (tt, tt)), (((refl, refl), tt), tt))
