-- ===== src/Patch.antt =====
-- crates/pve-meta-core/src/patch.rs: merge patches with explicit delete, and the structural
-- difference of two documents. A function that mutates a document returns the new one, beside the
-- touched paths that its call pushes.
pub mod Untouched
pub mod Keeps
pub mod Clean
use Prim.Native.String.{◌++◌ as concat}
use pve_meta.Shared.{
  String, Bool, false, not, ◌&&◌, ◌||◌, Option, none, some, List, [], ◌∷◌, ◌++◌, is_empty, Eq,
  if◌then◌else◌,
}
use pve_meta.DocPath.{DocPath, root, child}
use pve_meta.Json.{
  Value, null, object, Fields, end, field, get, contains_key, insert, shift_remove, is_object,
  as_object, is_empty_map, eq_value,
}
use pve_meta.Model.{comment_suffix}

pub data Op : Type 0 where
  set delete : Op

pub record Touched : Type 0 where
  pub path : DocPath
  pub op : Op

abbrev pub touch : DocPath → Op → Touched
touch path op = record { path = path; op = op }

-- The key of the note about `k`.
unfoldable pub note_of : String → String
note_of k = concat k comment_suffix

module _ {N : Type 0} where
  -- The object at a key: the test of the second arm of `apply_obj`, and what it recurs into.
  object_in : Option (Value N) → Option (Fields N)
  object_in (some (object f)) = some f
  object_in _ = none

  unfoldable pub object_at : String → Fields N → Option (Fields N)
  unfolding get object_in
  object_at k f = object_in (get k f)

  -- `doc_map.shift_remove(k)` with the path pushed if the key was there
  unfoldable pub remove_key : String → DocPath → Fields N → Fields N × List Touched
  unfolding contains_key shift_remove
  remove_key k path doc =
      if contains_key k doc then (shift_remove k doc, touch path delete ∷ []) else (doc, [])

  -- the arm of a delete marker: the key, then its note unless the patch names it
  unfoldable pub delete_entry : String → Fields N → DocPath → Fields N → Fields N × List Touched
  unfolding remove_key note_of
  delete_entry k patch path doc =
      let (doc', gone) = remove_key k (child path k) doc in
      let (doc'', note_gone) = remove_key (note_of k) (child path (note_of k)) doc' in
      if contains_key (note_of k) patch then (doc', gone) else (doc'', gone ++ note_gone)

module _ {N : Type 0} ⦃e : Eq N⦄ where
  holds : Option (Value N) → Value N → Bool
  unfolding eq_value
  holds none v = false
  holds (some w) v = eq_value w v

  -- the last arm: the value is stored unless the key has an equal one
  unfoldable pub set_entry : String → Value N → DocPath → Fields N → Fields N × List Touched
  unfolding holds get insert
  set_entry k v path doc =
      if holds (get k doc) v then (doc, []) else (insert k v doc, touch path set ∷ [])

  -- The arms of an object: `recurse` is the call of `apply_obj` with it, and `target` is the object
  -- at the key. An absent or other value is merged over as if it were the empty object.
  unfoldable pub object_entry :
      Fields N
      → String
      → DocPath
      → (Fields N → Fields N × List Touched)
      → Fields N
      → Option (Fields N)
      → Fields N × List Touched
  unfolding insert contains_key set_entry
  object_entry f k path recurse doc (some target) =
      let (target', touched) = recurse target in (insert k (object target') doc, touched)
  object_entry f k path recurse doc none =
      let (scratch, sub) = recurse end in
      if is_empty_map f
      then set_entry k (object f) path doc
      else if contains_key k doc || not (is_empty sub)
      then (insert k (object scratch) doc, touch path set ∷ [])
      else (doc, [])

  -- The body of `apply_obj`'s loop, for the entries that are left of the whole patch.
  unfoldable mutual
    pub apply_fields : Fields N → Fields N → DocPath → Fields N → Fields N × List Touched
    apply_fields end patch path doc = (doc, [])
    apply_fields (field k v rest) patch path doc =
        let (doc', touched) = apply_entry v k patch path doc in
        let (doc'', more) = apply_fields rest patch path doc' in (doc'', touched ++ more)

    pub apply_entry : Value N → String → Fields N → DocPath → Fields N → Fields N × List Touched
    apply_entry null k patch path doc = delete_entry k patch path doc
    apply_entry (object f) k patch path doc =
        object_entry f k (child path k) (apply_fields f f (child path k)) doc (object_at k doc)
    apply_entry v k patch path doc = set_entry k v (child path k) doc

  -- `apply_obj`
  unfoldable pub apply_obj : Value N → Value N → DocPath → Value N × List Touched
  unfolding apply_fields
  apply_obj (object doc) (object patch) path =
      let (doc', touched) = apply_fields patch patch path doc in (object doc', touched)
  apply_obj doc patch path = (doc, [])

  unfoldable pub apply_patch : Value N → Value N → Value N × List Touched
  unfolding apply_obj
  apply_patch doc patch =
      if is_object doc && is_object patch then apply_obj doc patch root else (doc, [])

  -- the paths of the keys that only the old map has
  unfoldable pub gone_keys : Fields N → Fields N → DocPath → List Touched
  unfolding contains_key
  gone_keys end new path = []
  gone_keys (field k v old) new path =
      (if contains_key k new then [] else touch (child path k) delete ∷ [])
      ++ gone_keys old new path

  set_unless_equal : Value N → Value N → DocPath → List Touched
  unfolding eq_value
  set_unless_equal old new path = if eq_value old new then [] else touch path set ∷ []

  -- The loop over the new map's entries; where both values are objects, the nested `diff_at`.
  unfoldable mutual
    unfolding gone_keys set_unless_equal get

    pub diff_fields : Fields N → Fields N → DocPath → List Touched
    diff_fields end old path = []
    diff_fields (field k v new) old path =
        diff_entry v (get k old) (child path k) ++ diff_fields new old path

    pub diff_entry : Value N → Option (Value N) → DocPath → List Touched
    diff_entry (object f) none path = touch path set ∷ []
    diff_entry (object f) (some old) path = elim (as_object old) [
      | some om ↦ diff_fields f om path ++ gone_keys om f path
      | none ↦ set_unless_equal old (object f) path
    ]
    diff_entry v none path = touch path set ∷ []
    diff_entry v (some old) path = set_unless_equal old v path

  unfoldable pub diff_at : Value N → Value N → DocPath → List Touched
  unfolding diff_fields
  diff_at (object om) (object nm) path = diff_fields nm om path ++ gone_keys om nm path
  diff_at old new path = set_unless_equal old new path

  unfoldable pub diff : Value N → Value N → List Touched
  unfolding diff_at
  diff old new = diff_at old new root
