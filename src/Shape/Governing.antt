-- ===== src/Shape/Governing.antt =====
-- Which prefix governs a path.
use pve_meta.Shared.{
  ◌≤◌, true, false, none, some, List, [], ◌∷◌, length, ◌≡◌, inl, inr, refl, arith, Bool-cases, All,
}
use mathlib.Core.List.{Memᴰ}
use mathlib.Core.List.Memᴰ.{head, tail}
use mathlib.Core.Path.{subst}
use pve_meta.DocPath.{DocPath, is_prefix_of}
use pve_meta.Shared.Sort.{sort_by-All, IsSorted, IsSorted-sort_by}
use pve_meta.Shared.Members.{Mem-sort_by}
use pve_meta.Registry.{by_specificity}
use pve_meta.Shape.{Declared, more_specific, shape_of, governing}

module _ {N : Type 0} where
  -- at least as many segments
  abbrev pub IsDeeper : Declared N → Declared N → Type 0
  IsDeeper a b = length b.prefix.segments ≤ length a.prefix.segments

  IsDeeper-if_less : (a b : Declared N) → more_specific a b ≡ true → IsDeeper a b
  unfolding by_specificity
  IsDeeper-if_less a b h = ground arith

  IsDeeper-if_not : (a b : Declared N) → more_specific a b ≡ false → IsDeeper b a
  unfolding by_specificity
  IsDeeper-if_not a b h = ground arith

  shape_of-IsSorted : (ds : List (Declared N)) → IsSorted more_specific IsDeeper (shape_of ds)
  unfolding shape_of
  shape_of-IsSorted ds =
      IsSorted-sort_by more_specific IsDeeper (λ x y z h k. omega arith) IsDeeper-if_less
        IsDeeper-if_not ds

  -- the first match in a sorted list
  abbrev Governs : DocPath → List (Declared N) → Declared N → Type 0
  Governs path ds d =
      Memᴰ d ds
      × (is_prefix_of d.prefix path ≡ true)
      × All (λ other. is_prefix_of other.prefix path ≡ true → IsDeeper d other) ds

  All-IsDeeper :
      (path : DocPath) (d : Declared N) (ds : List (Declared N))
      → All (IsDeeper d) ds
      → All (λ other. is_prefix_of other.prefix path ≡ true → IsDeeper d other) ds
  All-IsDeeper path d [] _ = tt
  All-IsDeeper path d (x ∷ ds) (h, hs) = ((λ _. h), All-IsDeeper path d ds hs)

  governing_first :
      (ds : List (Declared N)) (path : DocPath) (d : Declared N)
      → IsSorted more_specific IsDeeper ds
      → governing ds path ≡ some d
      → Governs path ds d
  unfolding governing
  governing_first [] path d _ h = absurd (cc h)
  governing_first (x ∷ ds) path d (k, ks) h = elim (Bool-cases (is_prefix_of x.prefix path)) [
    | inl covers ↦
        let same : x ≡ d = cc (rw covers at h) in
        subst (λ y. Governs path (x ∷ ds) y) same
          (head refl, covers, ((λ _. omega arith), All-IsDeeper path x ds k))
    | inr apart ↦
        let (m, covers, rest) = governing_first ds path d ks (rw apart at h) in
        (tail m, covers, ((λ q. absurd (cc (q, apart))), rest))
  ]

  governing_nothing :
      (ds : List (Declared N)) (path : DocPath)
      → governing ds path ≡ none
      → All (λ d. is_prefix_of d.prefix path ≡ false) ds
  unfolding governing
  governing_nothing [] path h = tt
  governing_nothing (x ∷ ds) path h = elim (Bool-cases (is_prefix_of x.prefix path)) [
    | inl covers ↦ absurd (cc (rw covers at h))
    | inr apart ↦ (apart, governing_nothing ds path (rw apart at h))
  ]

  -- The prefix that governs a path is one of the declared ones, covers the path, and has at least as
  -- many segments as any other declared prefix that covers it.
  pub governing_most_specific :
      (declared : List (Declared N)) (path : DocPath) (d : Declared N)
      → governing (shape_of declared) path ≡ some d
      → Memᴰ d declared
        × (is_prefix_of d.prefix path ≡ true)
        × All (λ other. is_prefix_of other.prefix path ≡ true → IsDeeper d other) declared
  governing_most_specific declared path d h =
      let (m, covers, deepest) =
        governing_first (shape_of declared) path d (shape_of-IsSorted declared) h in
      unfold shape_of in
      (Mem-sort_by more_specific declared d m, covers, sort_by-All more_specific _ declared deepest)

  -- Where no prefix governs, none of the declared ones covers the path.
  pub governing-none :
      (declared : List (Declared N)) (path : DocPath)
      → governing (shape_of declared) path ≡ none
      → All (λ d. is_prefix_of d.prefix path ≡ false) declared
  governing-none declared path h =
      unfold shape_of in
      sort_by-All more_specific _ declared (governing_nothing (shape_of declared) path h)
