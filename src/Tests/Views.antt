-- ===== src/Tests/Views.antt =====
-- The tests of view.rs, and the properties of views at concrete documents.
use pve_meta.Shared.{ℕ, ◌≡◌, refl, [], ◌∷◌, some, List, String}
use pve_meta.DocPath.{DocPath, child, is_prefix_of}
use pve_meta.Json.{Value, end, field, null, string, object}
use pve_meta.Error.{ok}
use pve_meta.Patch.{touch, set, delete, apply_obj, diff, delete_entry}
use pve_meta.View.{extract, descend, replace, merge, parent_and_key}
use pve_meta.View.Writes.{extract-replace, extract-replace_apart}
use pve_meta.View.Merges.{merge_untouched, extract-merge, map_at}
use pve_meta.Tests.Numbers.{nat_eq, num, one}

abbrev pub at : List String → DocPath
at segments = record { segments = segments }

abbrev traefik : Value ℕ
traefik = object (
    one "traefik" (object (one "spec" (object (field "host" (string "old") (one "port" (num 1)))))))

abbrev spec : DocPath
spec = at ("traefik" ∷ "spec" ∷ [])

abbrev new_host : Value ℕ
new_host = object (one "host" (string "new"))

abbrev empty : Value ℕ
empty = object end

abbrev blocked_doc : Value ℕ
blocked_doc = object (one "a" (string "scalar"))

replaces_and_reports : replace traefik spec new_host ≡ (
  object (one "traefik" (object (one "spec" new_host))),
  ok (touch (child spec "host") set ∷ touch (child spec "port") delete ∷ []),
)
unfolding replace parent_and_key diff child
replaces_and_reports = refl

creates_the_maps_on_the_way :
    (replace empty (at ("a" ∷ "b" ∷ [])) (num 1)).0 ≡ object (one "a" (object (one "b" (num 1))))
unfolding replace parent_and_key
creates_the_maps_on_the_way = refl

extract-replace_example : extract (replace traefik spec new_host).0 spec ≡ ok (some new_host)
unfolding replace parent_and_key
extract-replace_example = extract-replace traefik spec new_host refl

extract-replace_apart_example :
    extract (replace traefik spec new_host).0 (at ("traefik" ∷ "http" ∷ []))
    ≡ extract traefik (at ("traefik" ∷ "http" ∷ []))
unfolding is_prefix_of
extract-replace_apart_example =
    extract-replace_apart traefik spec (at ("traefik" ∷ "http" ∷ [])) new_host (refl, refl)

merge_untouched_example :
    (merge traefik (at ("new" ∷ "deep" ∷ [])) (object (one "gone" null))).0 ≡ traefik
unfolding merge parent_and_key descend apply_obj delete_entry
merge_untouched_example =
    merge_untouched traefik (at ("new" ∷ "deep" ∷ [])) (object (one "gone" null)) refl

extract-merge_example :
    extract (merge traefik spec (object (one "port" null))).0 spec
    ≡ ok (
        some
          (apply_obj
            (map_at (some (object (field "host" (string "old") (one "port" (num 1))))))
            (object (one "port" null))
            spec).0)
unfolding extract merge parent_and_key descend apply_obj delete_entry
extract-merge_example =
    extract-merge traefik spec (object (one "port" null))
      (some (object (field "host" (string "old") (one "port" (num 1)))))
      (touch (child spec "port") delete ∷ []) (λ h. cc h) refl refl (λ h. cc h)
