-- ===== src/View/Notes.antt =====
-- The notes of view.rs: what a read leaves out, and what a replacement keeps.
pub mod Strip
pub mod Keep
pub mod Restore
use pve_meta.Shared.{
  ℕ, zero, suc, String, Bool, not, ◌&&◌, ◌||◌, Option, none, some, List, [], ◌∷◌, any, str_eq,
  if◌then◌else◌,
}
use pve_meta.Shared.Text.{strip_suffix}
use pve_meta.DocPath.{DocPath}
use pve_meta.Json.{
  Value, array, object, Items, nil, cons, Fields, end, field, get, contains_key, as_object,
}
use pve_meta.Model.{is_comment_key, comment_suffix}

unfoldable pub names_comment : DocPath → Bool
names_comment path = any is_comment_key path.segments

module _ {N : Type 0} where
  -- The keys of a map are distinct, so that collecting the entries that are left keeps them.
  unfoldable mutual
    pub strip_comments : Value N → Value N
    strip_comments (object map) = object (strip_fields map)
    strip_comments (array items) = array (strip_items items)
    strip_comments v = v

    pub strip_items : Items N → Items N
    strip_items nil = nil
    strip_items (cons v items) = cons (strip_comments v) (strip_items items)

    pub strip_fields : Fields N → Fields N
    strip_fields end = end
    strip_fields (field k v map) =
        let rest = strip_fields map in
        if is_comment_key k then rest else field k (strip_comments v) rest

  -- `out.iter().position(|(n, _)| n == k)`
  position : String → Fields N → Option ℕ
  position k end = none
  position k (field j v out) =
      let rest = position k out in
      if str_eq j k then some 0 else elim rest [ none ↦ none | some i ↦ some (suc i) ]

  -- `out.insert(at, (k, v))`
  insert_at : ℕ → String → Value N → Fields N → Fields N
  insert_at zero k v out = field k v out
  insert_at (suc i) k v end = field k v end
  insert_at (suc i) k v (field j w out) = field j w (insert_at i k v out)

  -- behind the nearest of the keys before it, nearest first, that is still there, or first
  place_after : List String → Fields N → ℕ
  unfolding position
  place_after [] out = 0
  place_after (prev ∷ before) out =
      let further = place_after before out in
      elim (position prev out) [ none ↦ further | some i ↦ suc i ]

  -- the note's subject is in both maps, or the note is the map's own
  is_alive : String → Fields N → Fields N → Bool
  unfolding contains_key
  is_alive subject om out = str_eq subject "" || contains_key subject om && contains_key subject out

  keep_note : Option String → String → Value N → List String → Fields N → Fields N → Fields N
  unfolding is_alive insert_at place_after
  keep_note none k v before om out = out
  keep_note (some subject) k v before om out =
      if not (is_alive subject om out) || contains_key k out
      then out
      else insert_at (place_after before out) k v out

  -- The loop over the old entries, with the keys that came before, the last first.
  unfoldable pub keep_notes : Fields N → List String → Fields N → Fields N → Fields N
  unfolding keep_note strip_suffix
  keep_notes end before om out = out
  keep_notes (field k v rest) before om out =
      keep_notes rest (k ∷ before) om (keep_note (strip_suffix comment_suffix k) k v before om out)

  old_object : Option (Value N) → Option (Fields N)
  old_object none = none
  old_object (some v) = as_object v

  -- `keep_comments`, the recursion being on the new value. The keys of `out` stay distinct, so that
  -- collecting its entries keeps them.
  unfoldable mutual
    unfolding keep_notes old_object get

    pub keep_value : Value N → Option (Fields N) → Value N
    keep_value (object nm) (some om) = object (keep_notes om [] om (keep_fields nm om))
    keep_value new old = new

    pub keep_fields : Fields N → Fields N → Fields N
    keep_fields end om = end
    keep_fields (field k v nm) om =
        field k (keep_value v (old_object (get k om))) (keep_fields nm om)

  unfoldable pub keep_comments : Value N → Value N → Value N
  unfolding keep_value
  keep_comments old new = keep_value new (as_object old)
