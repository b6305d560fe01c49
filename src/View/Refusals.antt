-- ===== src/View/Refusals.antt =====
-- Which documents and paths a view operation refuses, and what it leaves then.
use pve_meta.Shared.{
  String, Option, none, some, List, [], ◌∷◌, ◌++◌, ◌≡◌, refl, arith, Eq, Bool-cases, is_empty, inl,
  inr, ap, ◌∙◌,
}
use pve_meta.DocPath.{DocPath}
use pve_meta.Json.{Value, null, object, Fields, get}
use pve_meta.Error.{Result, ok, err}
use pve_meta.Patch.{apply_obj}
use pve_meta.View.{
  descend_from, with_existing, or_empty, with_created, extract, replace, merge, merge_at,
  merged_paths, or_fail, scratch_of, remove, remove_from,
}
use pve_meta.View.Steps.{
  existing_option, existing-step, view_cases, descend_below, extract_root, extract_below,
  replace_root, replace_below, remove_root, remove_below, merge_root, merge_below,
}
use pve_meta.View.Descent.{is_ok, created_ok, descend_option, descend-step, created-step}

module _ {N : Type 0} (path q : DocPath) (key : String) where
  module _ {A : Type 0} (act : Fields N → Fields N × A) where
    created-is_ok_at :
        (segs : List String) (o : Option (Value N))
        → ((v : Value N)
            → is_ok (with_created path act v segs).1 ≡ is_ok (descend_from q v (segs ++ key ∷ [])))
        → is_ok (with_created path act (or_empty o) segs).1
          ≡ is_ok (descend_option q o (segs ++ key ∷ []))
    unfolding or_empty
    created-is_ok_at segs none same = created_ok path act segs
    created-is_ok_at segs (some v) same = same v

    -- The walk that creates is refused where the read of a key below its end is.
    pub created-is_ok :
        (doc : Value N) (segs : List String)
        → is_ok (with_created path act doc segs).1 ≡ is_ok (descend_from q doc (segs ++ key ∷ []))
    created-is_ok (object map) [] = unfold with_created descend_from in ground arith
    created-is_ok (object map) (s ∷ segs) =
        rw (created-step, descend-step)
          (created-is_ok_at segs (get s map) (λ v. created-is_ok v segs))
    created-is_ok null [] = unfold with_created descend_from in refl
    created-is_ok null (s ∷ segs) = unfold with_created descend_from in refl
    created-is_ok _ [] = unfold with_created descend_from in refl
    created-is_ok _ (s ∷ segs) = unfold with_created descend_from in refl

  module _ {A : Type 0} (absent : A) (act : Value N → Value N × Result A) where
    module _ (same : (v : Value N) → is_ok (act v).1 ≡ is_ok (descend_from q v (key ∷ []))) where
      existing-is_ok_at :
          (map : Fields N) (s : String) (segs : List String) (o : Option (Value N))
          → ((v : Value N)
              → is_ok (with_existing path absent act v segs).1
                ≡ is_ok (descend_from q v (segs ++ key ∷ [])))
          → is_ok (existing_option path absent act s map o segs).1
            ≡ is_ok (descend_option q o (segs ++ key ∷ []))
      existing-is_ok_at map s segs none ih = refl
      existing-is_ok_at map s segs (some v) ih = ih v

      -- So is the walk that only follows what is there.
      pub existing-is_ok :
          (doc : Value N) (segs : List String)
          → is_ok (with_existing path absent act doc segs).1
            ≡ is_ok (descend_from q doc (segs ++ key ∷ []))
      existing-is_ok (object map) [] = unfold with_existing in same (object map)
      existing-is_ok (object map) (s ∷ segs) =
          rw (existing-step path absent act map s segs, descend-step)
            (existing-is_ok_at map s segs (get s map) (λ v. existing-is_ok v segs))
      existing-is_ok null [] = unfold with_existing in same null
      existing-is_ok null (s ∷ segs) = unfold with_existing descend_from in refl
      existing-is_ok v [] = unfold with_existing in same v
      existing-is_ok _ (s ∷ segs) = unfold with_existing descend_from in refl

module _ {N : Type 0} ⦃e : Eq N⦄ where
  remove_from-is_ok :
      (prefix parent_path q : DocPath) (key : String) (v : Value N)
      → is_ok (remove_from prefix parent_path key v).1 ≡ is_ok (descend_from q v (key ∷ []))
  unfolding remove_from descend_from
  remove_from-is_ok prefix parent_path q key (object map) = ground arith
  remove_from-is_ok prefix parent_path q key v = refl

  -- Replacing is refused for the same documents and paths as reading.
  pub replace-is_ok :
      (doc : Value N) (prefix : DocPath) (subtree : Value N)
      → is_ok (replace doc prefix subtree).1 ≡ is_ok (extract doc prefix)
  replace-is_ok doc prefix subtree = elim (view_cases prefix) [
    | inl (at_root, nothing) ↦
        rw (replace_root prefix at_root doc subtree, extract_root prefix nothing doc)
    | inr (p, key, below, segs) ↦
        rw (replace_below prefix p key below doc subtree, extract_below prefix p key segs doc)
          (created-is_ok p prefix key _ doc p.segments)
  ]

  -- So is removing.
  pub remove-is_ok :
      (doc : Value N) (prefix : DocPath) → is_ok (remove doc prefix).1 ≡ is_ok (extract doc prefix)
  remove-is_ok doc prefix = elim (view_cases prefix) [
    | inl (at_root, nothing) ↦ rw (remove_root prefix at_root doc, extract_root prefix nothing doc)
    | inr (p, key, below, segs) ↦
        rw (remove_below prefix p key below doc, extract_below prefix p key segs doc)
          (existing-is_ok p prefix key _ _ (remove_from-is_ok prefix p prefix key) doc p.segments)
  ]

  merge_at-is_ok :
      (doc : Value N) (prefix p : DocPath) (key : String) (patch : Value N)
      → (r : Result (Option (Value N))) → descend_from prefix doc (p.segments ++ key ∷ []) ≡ r
      → is_ok (or_fail doc (merge_at doc prefix p key patch) r).1 ≡ is_ok r
  unfolding or_fail merge_at
  merge_at-is_ok doc prefix p key patch (err x) same = refl
  merge_at-is_ok doc prefix p key patch (ok existing) same =
      elim (Bool-cases (
        is_empty (merged_paths existing prefix (apply_obj (scratch_of existing) patch prefix).1))) [
          | inl nothing ↦ rw nothing
          | inr something ↦
              rw something (created-is_ok p prefix key _ doc p.segments ∙ ap is_ok same)
        ]

  -- So is merging.
  pub merge-is_ok :
      (doc : Value N) (prefix : DocPath) (patch : Value N)
      → is_ok (merge doc prefix patch).1 ≡ is_ok (extract doc prefix)
  merge-is_ok doc prefix patch = elim (view_cases prefix) [
    | inl (at_root, nothing) ↦
        rw (merge_root prefix at_root doc patch, extract_root prefix nothing doc)
    | inr (p, key, below, segs) ↦
        rw
          (
            merge_below prefix p key below doc patch,
            extract_below prefix p key segs doc,
            descend_below prefix p key segs doc,
          )
          (merge_at-is_ok doc prefix p key patch _ refl)
  ]
