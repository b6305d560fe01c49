-- ===== src/Registry/Rows.antt =====
-- The prefixes that reach a guest of crates/pve-meta-core/src/registry.rs, by what a selector and an
-- override of a node mean.
use pve_meta.Shared.{
  String, true, Option, none, some, List, [], ◌∷◌, any, str_eq, eq_iff, ◌≡◌, ◌≢◌, ◌↔◌, inl, inr,
  refl, sym, ap, ◌∙◌, arith, Bool-cases,
}
use mathlib.Core.List.{Memᴰ}
use mathlib.Core.List.Memᴰ.{head, tail}
use pve_meta.Registry.{
  Selector, everyone, tagged, matches, NodeName, NodeOverride, PrefixDef, replaced, some_replaced,
  override_for, override_at, overridden, resolve_for_node,
}
use pve_meta.Registry.Listing.{prefixes_for_guest, prefixes_for_guest_picked}

-- a guest with these tags is selected
abbrev pub Selects : Selector → List String → Type 0
Selects everyone tags = Unit
Selects (tagged t) tags = Memᴰ t tags

any_equal_Mem :
    (t : String) (tags : List String) → any (λ have. str_eq have t) tags ≡ true → Memᴰ t tags
any_equal_Mem t [] h = absurd (cc h)
any_equal_Mem t (have ∷ tags) h = elim (Bool-cases (str_eq have t)) [
  | inl same ↦ head (sym ((eq_iff have t).0 same))
  | inr other ↦ tail (any_equal_Mem t tags (rw other at h))
]

Mem_any_equal :
    (t : String) (tags : List String) → Memᴰ t tags → any (λ have. str_eq have t) tags ≡ true
Mem_any_equal t [] m = elim m [ ]
Mem_any_equal t (have ∷ tags) m = elim m [
  | head q ↦ rw ((eq_iff have t).1 (sym q))
  | tail k ↦ ground (arith, Mem_any_equal t tags k)
]

matches_iff :
    (selector : Selector) (tags : List String)
    → (matches selector tags ≡ true) ↔ Selects selector tags
unfolding matches
matches_iff everyone tags = ((λ _. tt), λ _. refl)
matches_iff (tagged t) tags = (any_equal_Mem t tags, Mem_any_equal t tags)

-- a field that an override may set
abbrev pub IsReplaced : {A : Type 0} → Option A → A → A → Type 0
IsReplaced none old new = new ≡ old
IsReplaced (some a) old new = new ≡ a

abbrev pub IsReplacedSome : {A : Type 0} → Option A → Option A → Option A → Type 0
IsReplacedSome none old new = new ≡ old
IsReplacedSome (some a) old new = new ≡ some a

replaced-IsReplaced :
    {A : Type 0} (over : Option A) (old : A) → IsReplaced over old (replaced over old)
unfolding replaced
replaced-IsReplaced none old = refl
replaced-IsReplaced (some a) old = refl

some_replaced-IsReplacedSome :
    {A : Type 0} (over old : Option A) → IsReplacedSome over old (some_replaced over old)
unfolding some_replaced
some_replaced-IsReplacedSome none old = refl
some_replaced-IsReplacedSome (some a) old = refl

IsReplaced-replaced_eq :
    {A : Type 0} (over : Option A) (old new : A) → IsReplaced over old new → new ≡ replaced over old
unfolding replaced
IsReplaced-replaced_eq none old new h = h
IsReplaced-replaced_eq (some a) old new h = h

set_some :
    {A : Type 0} (over old new : Option A)
    → IsReplacedSome over old new
    → new ≡ some_replaced over old
unfolding some_replaced
set_some none old new h = h
set_some (some a) old new h = h

module _ {N : Type 0} where
  -- the first override of a node among those of a prefix, or that there is none
  pub data IsFirstFor (n : String)
      : List (NodeName × NodeOverride N) → Option (NodeOverride N) → Type 0 where
    nowhere : IsFirstFor n [] none
    here :
        {m : NodeName} {over : NodeOverride N} {nodes : List (NodeName × NodeOverride N)}
        → m.text ≡ n
        → IsFirstFor n ((m, over) ∷ nodes) (some over)
    later :
        {m : NodeName} {over : NodeOverride N} {nodes : List (NodeName × NodeOverride N)}
        {found : Option (NodeOverride N)}
        → m.text ≢ n
        → IsFirstFor n nodes found
        → IsFirstFor n ((m, over) ∷ nodes) found

  abbrev pub IsFirstAt :
      Option NodeName → List (NodeName × NodeOverride N) → Option (NodeOverride N) → Type 0
  IsFirstAt none nodes found = found ≡ none
  IsFirstAt (some n) nodes found = IsFirstFor n.text nodes found

  override_for-IsFirstFor :
      (n : String) (nodes : List (NodeName × NodeOverride N))
      → IsFirstFor n nodes (override_for n nodes)
  unfolding override_for
  override_for-IsFirstFor n [] = nowhere
  override_for-IsFirstFor n ((m, over) ∷ nodes) = elim (Bool-cases (str_eq m.text n)) [
    | inl same ↦ rw same (here ((eq_iff m.text n).0 same))
    | inr other ↦
        rw other (
          later (λ q. absurd (cc (other, (eq_iff m.text n).1 q))) (override_for-IsFirstFor n nodes))
  ]

  IsFirstFor-override_for :
      (n : String) {nodes : List (NodeName × NodeOverride N)} {found : Option (NodeOverride N)}
      → IsFirstFor n nodes found
      → found ≡ override_for n nodes
  unfolding override_for
  IsFirstFor-override_for n nowhere = refl
  IsFirstFor-override_for n (here {m} {over} {nodes} q) = rw ((eq_iff m.text n).1 q)
  IsFirstFor-override_for n (later {m} {over} {nodes} {found} q h) =
      ground (arith, eq_iff m.text n, IsFirstFor-override_for n h)

  -- what a row has of the fields that an override, if there is one, may set
  abbrev pub IsOverridden : Option (NodeOverride N) → PrefixDef N → PrefixDef N → Type 0
  IsOverridden none p row =
      (row.schema ≡ p.schema) × (row.enforce ≡ p.enforce) × (row.hidden ≡ p.hidden)
  IsOverridden (some over) p row =
      IsReplacedSome over.schema p.schema row.schema
      × IsReplaced over.enforce p.enforce row.enforce
      × IsReplaced over.hidden p.hidden row.hidden

  -- what a row has of a prefix as it is
  abbrev pub IsSameBut : PrefixDef N → PrefixDef N → Type 0
  IsSameBut p row =
      (row.prefix ≡ p.prefix)
      × (row.description ≡ p.description)
      × (row.selector ≡ p.selector)
      × (row.nodes ≡ [])
      × (row.origin ≡ p.origin)
      × (row.overrides ≡ p.overrides)

  abbrev pub IsResolved : Option NodeName → PrefixDef N → PrefixDef N → Type 0
  IsResolved at_node p row =
      (found : Option (NodeOverride N)) × IsFirstAt at_node p.nodes found
      × IsOverridden found p row
      × IsSameBut p row

  -- A row that is listed for a guest: a loaded prefix that selects a guest with the tags, with what
  -- the first override of the node sets, and without overrides.
  abbrev pub IsRowOf : List (PrefixDef N) → Option NodeName → List String → PrefixDef N → Type 0
  IsRowOf loaded at_node tags row =
      (p : PrefixDef N) × Memᴰ p loaded × Selects p.selector tags × IsResolved at_node p row

  overridden-IsOverridden :
      (found : Option (NodeOverride N)) (p : PrefixDef N)
      → IsOverridden found p (overridden found p) × IsSameBut p (overridden found p)
  unfolding overridden
  overridden-IsOverridden none p = ((refl, refl, refl), (refl, refl, refl, refl, refl, refl))
  overridden-IsOverridden (some over) p = (
    (
      some_replaced-IsReplacedSome over.schema p.schema,
      replaced-IsReplaced over.enforce p.enforce,
      replaced-IsReplaced over.hidden p.hidden,
    ),
    (refl, refl, refl, refl, refl, refl),
  )

  row_eq :
      (p row target : PrefixDef N)
      → IsSameBut p row
      → IsSameBut p target
      → row.schema ≡ target.schema
      → row.enforce ≡ target.enforce
      → row.hidden ≡ target.hidden
      → row ≡ target
  row_eq p row target (a, b, c, d, f, g) (a', b', c', d', f', g') s t u = cc

  IsOverridden-overridden :
      (found : Option (NodeOverride N)) (p row : PrefixDef N)
      → IsOverridden found p row
      → IsSameBut p row
      → row ≡ overridden found p
  unfolding overridden
  IsOverridden-overridden none p row (s, t, u) same =
      row_eq p row (overridden none p) same (refl, refl, refl, refl, refl, refl) s t u
  IsOverridden-overridden (some over) p row (s, t, u) same =
      row_eq p row (overridden (some over) p) same (refl, refl, refl, refl, refl, refl)
        (set_some over.schema p.schema row.schema s)
        (IsReplaced-replaced_eq over.enforce p.enforce row.enforce t)
        (IsReplaced-replaced_eq over.hidden p.hidden row.hidden u)

  override_at-IsFirstAt :
      (at_node : Option NodeName) (p : PrefixDef N)
      → IsFirstAt at_node p.nodes (override_at at_node p)
  unfolding override_at
  override_at-IsFirstAt none p = refl
  override_at-IsFirstAt (some n) p = override_for-IsFirstFor n.text p.nodes

  IsFirstAt-override_at :
      (at_node : Option NodeName) (p : PrefixDef N) (found : Option (NodeOverride N))
      → IsFirstAt at_node p.nodes found
      → found ≡ override_at at_node p
  unfolding override_at
  IsFirstAt-override_at none p found h = h
  IsFirstAt-override_at (some n) p found h = IsFirstFor-override_for n.text h

  IsResolved-iff :
      (at_node : Option NodeName) (p row : PrefixDef N)
      → (row ≡ resolve_for_node p at_node) ↔ IsResolved at_node p row
  unfolding resolve_for_node
  IsResolved-iff at_node p row = (
    (λ q.
        let (set, same) = overridden-IsOverridden (override_at at_node p) p in
        rw q (override_at at_node p, override_at-IsFirstAt at_node p, set, same)),
    λ (found, first, set, same).
        IsOverridden-overridden found p row set same
        ∙ ap (λ o. overridden o p) (IsFirstAt-override_at at_node p found first),
  )

  -- The rows that are listed for a guest are exactly the loaded prefixes whose selector is for
  -- everyone or names one of the guest's tags, each with what the first override of the guest's node
  -- sets, if the guest has a node that the prefix overrides, and without its overrides.
  pub prefixes_for_guest_rows :
      (loaded : List (PrefixDef N)) (at_node : Option NodeName) (tags : List String)
      (row : PrefixDef N)
      → Memᴰ row (prefixes_for_guest loaded at_node tags) ↔ IsRowOf loaded at_node tags row
  prefixes_for_guest_rows loaded at_node tags row =
      let picked = prefixes_for_guest_picked loaded at_node tags row in
      (
        (λ m.
            let (p, there, selected, q) = picked.0 m in
            (
              p,
              there,
              (matches_iff p.selector tags).0 selected,
              (IsResolved-iff at_node p row).0 q,
            )),
        λ (p, there, selected, resolved). picked.1 (
          p,
          there,
          (matches_iff p.selector tags).1 selected,
          (IsResolved-iff at_node p row).1 resolved,
        ),
      )
