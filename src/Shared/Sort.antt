-- ===== src/Shared/Sort.antt =====
-- Orders on texts and lists of texts, and Rust's stable `sort_by`.
use Prim.Native.Nat.{compare, Ordering}
use Prim.Native.Char.{code}
use Prim.Native.String.{String}
use mathlib.Core.Path.{◌≡◌}
use mathlib.Core.Bool.{Bool, true, false}
use mathlib.Core.List.{List, [], ◌∷◌}
use pve_meta.Shared.Tests.{if◌then◌else◌, Bool-cases}
use mathlib.Core.Logic.{inl, inr}
use pve_meta.Shared.Lists.{All}

-- `Ordering::then_with`, the second being computed in any case
abbrev pub then_with : Ordering → Ordering → Ordering
then_with Ordering.eq o = o
then_with o _ = o

abbrev pub is_less : Ordering → Bool
is_less Ordering.lt = true
is_less _ = false

-- `str::cmp`: texts in UTF-8 are in the order of their code points
unfoldable pub compare_text : String → String → Ordering
compare_text String.[] String.[] = Ordering.eq
compare_text String.[] (String.◌∷◌ c s) = Ordering.lt
compare_text (String.◌∷◌ c s) String.[] = Ordering.gt
compare_text (String.◌∷◌ c s) (String.◌∷◌ d t) =
    then_with (compare (code c) (code d)) (compare_text s t)

-- `cmp` of two lists of texts
unfoldable pub compare_texts : List String → List String → Ordering
unfolding compare_text
compare_texts [] [] = Ordering.eq
compare_texts [] (t ∷ ts) = Ordering.lt
compare_texts (s ∷ ss) [] = Ordering.gt
compare_texts (s ∷ ss) (t ∷ ts) = then_with (compare_text s t) (compare_texts ss ts)

module _ {ℓ} {A : Type ℓ} (less : A → A → Bool) where
  -- `x` stood before all of the list
  insert_sorted : A → List A → List A
  insert_sorted x [] = x ∷ []
  insert_sorted x (y ∷ ys) =
      let rest = insert_sorted x ys in if less y x then y ∷ rest else x ∷ (y ∷ ys)

  -- `sort_by`, which is stable
  unfoldable pub sort_by : List A → List A
  unfolding insert_sorted
  sort_by [] = []
  sort_by (x ∷ xs) = insert_sorted x (sort_by xs)

  module _ {κ} (P : A → Type κ) where
    All-insert_sorted : (x : A) (xs : List A) → P x → All P xs → All P (insert_sorted x xs)
    unfolding insert_sorted
    All-insert_sorted x [] p _ = (p, tt)
    All-insert_sorted x (y ∷ ys) p (q, h) = elim (Bool-cases (less y x)) [
      | inl e ↦ rw e (q, All-insert_sorted x ys p h)
      | inr e ↦ rw e (p, (q, h))
    ]

    insert_sorted-All : (x : A) (xs : List A) → All P (insert_sorted x xs) → P x × All P xs
    unfolding insert_sorted
    insert_sorted-All x [] h = h
    insert_sorted-All x (y ∷ ys) h = elim (Bool-cases (less y x)) [
      | inl e ↦
          let (q, k) : P y × All P (insert_sorted x ys) = rw e at h in
          let (p, r) = insert_sorted-All x ys k in (p, (q, r))
      | inr e ↦ (rw e at h)
    ]

    -- Sorting neither drops an element nor adds one.
    pub All-sort_by : (xs : List A) → All P xs → All P (sort_by xs)
    unfolding sort_by
    All-sort_by [] _ = tt
    All-sort_by (x ∷ xs) (p, h) = All-insert_sorted x (sort_by xs) p (All-sort_by xs h)

    pub sort_by-All : (xs : List A) → All P (sort_by xs) → All P xs
    unfolding sort_by
    sort_by-All [] _ = tt
    sort_by-All (x ∷ xs) h =
        let (p, k) = insert_sorted-All x (sort_by xs) h in (p, sort_by-All xs k)

  module _ {κ} (Below : A → A → Type κ) where
    -- every element is in the relation to all that come after it
    abbrev pub IsSorted : List A → Type κ
    IsSorted [] = Unit
    IsSorted (x ∷ xs) = All (Below x) xs × IsSorted xs

    module _ (trans : (x y z : A) → Below x y → Below y z → Below x z)
        (if_less : (x y : A) → less x y ≡ true → Below x y)
        (if_not : (x y : A) → less x y ≡ false → Below y x) where
      All-below : (x y : A) (ys : List A) → Below x y → All (Below y) ys → All (Below x) ys
      All-below x y [] h _ = tt
      All-below x y (z ∷ ys) h (k, ks) = (trans x y z h k, All-below x y ys h ks)

      IsSorted-insert : (x : A) (xs : List A) → IsSorted xs → IsSorted (insert_sorted x xs)
      unfolding insert_sorted
      IsSorted-insert x [] _ = (tt, tt)
      IsSorted-insert x (y ∷ ys) (h, hs) = elim (Bool-cases (less y x)) [
        | inl e ↦ rw e (All-insert_sorted (Below y) x ys (if_less y x e) h, IsSorted-insert x ys hs)
        | inr e ↦ rw e ((if_not y x e, All-below x y ys (if_not y x e) h), (h, hs))
      ]

      pub IsSorted-sort_by : (xs : List A) → IsSorted (sort_by xs)
      unfolding sort_by
      IsSorted-sort_by [] = tt
      IsSorted-sort_by (x ∷ xs) = IsSorted-insert x (sort_by xs) (IsSorted-sort_by xs)
