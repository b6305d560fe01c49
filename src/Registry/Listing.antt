-- ===== src/Registry/Listing.antt =====
-- The listings of crates/pve-meta-core/src/registry.rs over the files that loaded: the sort, and the
-- prefixes that reach one guest.
use pve_meta.Shared.{
  ◌≤◌, String, Bool, true, false, Option, none, some, List, [], ◌∷◌, length, if◌then◌else◌, ◌≡◌,
  ◌↔◌, ◌⊎◌, inl, inr, refl, arith, Bool-cases, All,
}
use mathlib.Core.List.{Memᴰ}
use mathlib.Core.List.Memᴰ.{head, tail}
use pve_meta.Shared.Members.{Mem-sort_by, sort_by-Mem}
use pve_meta.Shared.Sort.{sort_by, IsSorted, IsSorted-sort_by, is_less}
use pve_meta.Registry.{
  NodeName, PrefixDef, NodeOverride, overridden, override_at, matches, by_specificity,
  resolve_for_node,
}

module _ {N : Type 0} where
  abbrev pub comes_first : PrefixDef N → PrefixDef N → Bool
  comes_first a b = is_less (by_specificity a.prefix b.prefix)

  -- `list_prefixes`, for the files that loaded
  unfoldable pub list_prefixes : List (PrefixDef N) → List (PrefixDef N)
  list_prefixes loaded = sort_by comes_first loaded

  reaching : List (PrefixDef N) → Option NodeName → List String → List (PrefixDef N)
  reaching [] at_node tags = []
  reaching (p ∷ ps) at_node tags =
      let rest = reaching ps at_node tags in
      if matches p.selector tags then resolve_for_node p at_node ∷ rest else rest

  unfoldable pub prefixes_for_guest :
      List (PrefixDef N) → Option NodeName → List String → List (PrefixDef N)
  unfolding reaching
  prefixes_for_guest loaded at_node tags = reaching (list_prefixes loaded) at_node tags

  -- at least as many segments
  abbrev pub IsDeeper : PrefixDef N → PrefixDef N → Type 0
  IsDeeper a b = length b.prefix.segments ≤ length a.prefix.segments

  IsDeeper-if_less : (a b : PrefixDef N) → comes_first a b ≡ true → IsDeeper a b
  unfolding by_specificity
  IsDeeper-if_less a b h = ground arith

  IsDeeper-if_not : (a b : PrefixDef N) → comes_first a b ≡ false → IsDeeper b a
  unfolding by_specificity
  IsDeeper-if_not a b h = ground arith

  list_prefixes-IsSorted :
      (loaded : List (PrefixDef N)) → IsSorted comes_first IsDeeper (list_prefixes loaded)
  unfolding list_prefixes
  list_prefixes-IsSorted loaded =
      IsSorted-sort_by comes_first IsDeeper (λ x y z h k. omega arith) IsDeeper-if_less
        IsDeeper-if_not loaded

  overridden_prefix :
      (o : Option (NodeOverride N)) (p : PrefixDef N) → (overridden o p).prefix ≡ p.prefix
  unfolding overridden
  overridden_prefix none p = refl
  overridden_prefix (some over) p = refl

  resolved_prefix :
      (p : PrefixDef N) (at_node : Option NodeName) → (resolve_for_node p at_node).prefix ≡ p.prefix
  unfolding resolve_for_node
  resolved_prefix p at_node = overridden_prefix (override_at at_node p) p

  reaching-All :
      (p : PrefixDef N) (ps : List (PrefixDef N)) (at_node : Option NodeName) (tags : List String)
      → All (IsDeeper p) ps
      → All (IsDeeper (resolve_for_node p at_node)) (reaching ps at_node tags)
  unfolding reaching
  reaching-All p [] at_node tags _ = tt
  reaching-All p (q ∷ ps) at_node tags (h, hs) = elim (Bool-cases (matches q.selector tags)) [
    | inl picked ↦ rw picked (
      rw (resolved_prefix p at_node, resolved_prefix q at_node) h,
      reaching-All p ps at_node tags hs,
    )
    | inr skipped ↦ rw skipped (reaching-All p ps at_node tags hs)
  ]

  reaching-IsSorted :
      (ps : List (PrefixDef N)) (at_node : Option NodeName) (tags : List String)
      → IsSorted comes_first IsDeeper ps
      → IsSorted comes_first IsDeeper (reaching ps at_node tags)
  unfolding reaching
  reaching-IsSorted [] at_node tags _ = tt
  reaching-IsSorted (p ∷ ps) at_node tags (h, hs) = elim (Bool-cases (matches p.selector tags)) [
    | inl picked ↦
        rw picked (reaching-All p ps at_node tags h, reaching-IsSorted ps at_node tags hs)
    | inr skipped ↦ rw skipped (reaching-IsSorted ps at_node tags hs)
  ]

  -- The prefixes that reach a guest are listed with the ones of more segments first, also after the
  -- overrides of the node.
  pub prefixes_for_guest-IsSorted :
      (loaded : List (PrefixDef N)) (at_node : Option NodeName) (tags : List String)
      → IsSorted comes_first IsDeeper (prefixes_for_guest loaded at_node tags)
  unfolding prefixes_for_guest
  prefixes_for_guest-IsSorted loaded at_node tags =
      reaching-IsSorted (list_prefixes loaded) at_node tags (list_prefixes-IsSorted loaded)

  -- a loaded prefix that the selector's test passes, resolved
  abbrev pub IsPickedOf : List (PrefixDef N) → Option NodeName → List String → PrefixDef N → Type 0
  IsPickedOf loaded at_node tags row =
      (p : PrefixDef N) × Memᴰ p loaded
      × (matches p.selector tags ≡ true)
      × (row ≡ resolve_for_node p at_node)

  later_row :
      (p : PrefixDef N) (ps : List (PrefixDef N)) (at_node : Option NodeName) (tags : List String)
      (row : PrefixDef N)
      → IsPickedOf ps at_node tags row
      → IsPickedOf (p ∷ ps) at_node tags row
  later_row p ps at_node tags row (o, there, selected, q) = (o, tail there, selected, q)

  first_or_later :
      (b : Bool) (x row : PrefixDef N) (rest : List (PrefixDef N))
      → Memᴰ row (if b then x ∷ rest else rest)
      → ((b ≡ true) × (row ≡ x)) ⊎ Memᴰ row rest
  first_or_later true x row rest m = elim m [ head q ↦ inl (refl, q) | tail k ↦ inr k ]
  first_or_later false x row rest m = inr m

  reaching-step :
      (p : PrefixDef N) (ps : List (PrefixDef N)) (at_node : Option NodeName) (tags : List String)
      → reaching (p ∷ ps) at_node tags ≡ (
          if matches p.selector tags
          then resolve_for_node p at_node ∷ reaching ps at_node tags
          else reaching ps at_node tags)
  unfolding reaching
  reaching-step p ps at_node tags = refl

  reaching_rows :
      (ps : List (PrefixDef N)) (at_node : Option NodeName) (tags : List String) (row : PrefixDef N)
      → Memᴰ row (reaching ps at_node tags)
      → IsPickedOf ps at_node tags row
  reaching_rows [] at_node tags row m =
      let absent : Memᴰ row [] = unfold reaching in m in elim absent [ ]
  reaching_rows (p ∷ ps) at_node tags row m =
      elim (first_or_later (matches p.selector tags) (resolve_for_node p at_node) row
        (reaching ps at_node tags) (rw reaching-step at m)) [
          | inl (picked, q) ↦ (p, head refl, picked, q)
          | inr k ↦ later_row p ps at_node tags row (reaching_rows ps at_node tags row k)
        ]

  rows_reaching :
      (ps : List (PrefixDef N)) (at_node : Option NodeName) (tags : List String) (p : PrefixDef N)
      → Memᴰ p ps
      → matches p.selector tags ≡ true
      → Memᴰ (resolve_for_node p at_node) (reaching ps at_node tags)
  unfolding reaching
  rows_reaching [] at_node tags p m h = elim m [ ]
  rows_reaching (o ∷ ps) at_node tags p m h = elim m [
    | head q ↦ rw (← q, h) (head refl)
    | tail k ↦ elim (Bool-cases (matches o.selector tags)) [
      | inl picked ↦ rw picked (tail (rows_reaching ps at_node tags p k h))
      | inr skipped ↦ rw skipped (rows_reaching ps at_node tags p k h)
    ]
  ]

  -- the rows, by the tests and functions of the listing
  pub prefixes_for_guest_picked :
      (loaded : List (PrefixDef N)) (at_node : Option NodeName) (tags : List String)
      (row : PrefixDef N)
      → Memᴰ row (prefixes_for_guest loaded at_node tags) ↔ IsPickedOf loaded at_node tags row
  unfolding prefixes_for_guest list_prefixes
  prefixes_for_guest_picked loaded at_node tags row = (
    (λ m.
        let (p, there, selected, q) = reaching_rows (list_prefixes loaded) at_node tags row m in
        (p, Mem-sort_by comes_first loaded p there, selected, q)),
    λ (p, there, selected, q). rw q (
        rows_reaching (list_prefixes loaded) at_node tags p (sort_by-Mem comes_first loaded p there)
          selected),
  )
