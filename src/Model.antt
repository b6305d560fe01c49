-- ===== src/Model.antt =====
-- crates/pve-meta-core/src/model.rs: the comment keys, the one lint, and the lookup of a path.
pub mod Clean
use Prim.Native.String.{◌++◌ as concat}
use Prim.Native.Nat.{◌^◌}
use pve_meta.Shared.{
  ℕ, zero, suc, ◌+◌, String, Bool, not, ◌&&◌, Option, none, some, List, [], ◌∷◌, ◌++◌,
  if◌then◌else◌,
}
use pve_meta.Shared.Text.{ends_with}
use pve_meta.Shared.Decimal.{to_string, parse_unsigned}
use pve_meta.DocPath
use pve_meta.DocPath.{DocPath, root, child, is_valid_segment}
use pve_meta.Json.{
  Value, null, array, object, Items, nil, cons, Fields, end, field, get, is_object, is_string,
}

abbrev pub comment_suffix : String
comment_suffix = "__"

unfoldable pub is_comment_key : String → Bool
unfolding ends_with
is_comment_key k = ends_with comment_suffix k

unfoldable pub is_valid_key : String → Bool
unfolding is_valid_segment
is_valid_key k = is_valid_segment k

pub record Lint : Type 0 where
  pub path : DocPath
  pub msg : String

-- `Display`
unfoldable pub display_lint : Lint → String
display_lint l =
    if DocPath.is_root l.path then l.msg else concat (DocPath.display l.path) (concat ": " l.msg)

unfoldable pub key_lint : String → Option String
key_lint k =
    if is_valid_key k
    then none
    else some (
        concat "invalid key '"
          (concat k "': keys must match ^[A-Za-z0-9_@!-]+$ and contain no dots"))

key_finding : DocPath → Option String → List Lint
key_finding path none = []
key_finding path (some msg) = record { path = path; msg = msg } ∷ []

module _ {N : Type 0} where
  note_finding : DocPath → String → Value N → List Lint
  note_finding path k v =
      if is_comment_key k && not (is_string v)
      then record { path = path; msg = "comment key value must be a string" } ∷ []
      else []

  -- The findings that a call of `walk` pushes.
  unfoldable mutual
    unfolding key_finding note_finding key_lint

    pub walk : Value N → DocPath → List Lint
    walk null path =
        record { path = path; msg = "null values are not allowed (omit the key instead)" } ∷ []
    walk (array items) path = walk_items items 0 path
    walk (object map) path = walk_fields map path
    walk _ path = []

    pub walk_items : Items N → ℕ → DocPath → List Lint
    walk_items nil i path = []
    walk_items (cons item items) i path =
        walk item (child path (to_string i)) ++ walk_items items (i + 1) path

    pub walk_fields : Fields N → DocPath → List Lint
    walk_fields end path = []
    walk_fields (field k v map) path =
        let child_path = child path k in
        key_finding child_path (key_lint k)
        ++ (note_finding child_path k v ++ (walk v child_path ++ walk_fields map path))

  unfoldable pub lint : Value N → List Lint
  unfolding walk
  lint doc =
      (if is_object doc
        then []
        else record { path = root; msg = "top level must be an object" } ∷ [])
      ++ walk doc root

  item_at : Items N → ℕ → Option (Value N)
  item_at nil i = none
  item_at (cons v items) zero = some v
  item_at (cons v items) (suc i) = item_at items i

  -- `items.get(seg.parse::<usize>().ok()?)`
  item_named : Items N → Option ℕ → Option (Value N)
  item_named items none = none
  item_named items (some i) = item_at items i

  step_into : Value N → String → Option (Value N)
  unfolding item_named item_at get
  step_into (object map) seg = get seg map
  step_into (array items) seg = item_named items (parse_unsigned (2 ^ 64) seg)
  step_into _ seg = none

  get_segments : Value N → List String → Option (Value N)
  get_segments cur [] = some cur
  get_segments cur (seg ∷ segs) = elim (step_into cur seg) [
    | none ↦ none
    | some next ↦ get_segments next segs
  ]

  unfoldable pub get_path : Value N → DocPath → Option (Value N)
  unfolding get_segments step_into
  get_path doc path = get_segments doc path.segments
