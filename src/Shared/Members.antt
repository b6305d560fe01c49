-- ===== src/Shared/Members.antt =====
-- Membership in lists, and that sorting keeps it.
use mathlib.Core.Path.{refl}
use mathlib.Core.Bool.{Bool}
use mathlib.Core.List.{List, [], ◌∷◌, Memᴰ}
use mathlib.Core.List.Memᴰ.{head, tail}
use pve_meta.Shared.Lists.{All}
use pve_meta.Shared.Sort.{sort_by, All-sort_by, sort_by-All}

module _ {ℓ κ} {A : Type ℓ} (P : A → Type κ) where
  pub All-at : (xs : List A) (x : A) → All P xs → Memᴰ x xs → P x
  All-at [] x h m = elim m [ ]
  All-at (y ∷ ys) x (p, h) m = elim m [ head q ↦ rw q p | tail k ↦ All-at ys x h k ]

module _ {ℓ} {A : Type ℓ} where
  All-tail : (y : A) (xs ys : List A) → All (λ x. Memᴰ x xs) ys → All (λ x. Memᴰ x (y ∷ xs)) ys
  All-tail y xs [] _ = tt
  All-tail y xs (z ∷ ys) (m, h) = (tail m, All-tail y xs ys h)

  All-Mem : (xs : List A) → All (λ x. Memᴰ x xs) xs
  All-Mem [] = tt
  All-Mem (x ∷ xs) = (head refl, All-tail x xs xs (All-Mem xs))

  pub Mem-sort_by :
      (less : A → A → Bool) (xs : List A) (x : A) → Memᴰ x (sort_by less xs) → Memᴰ x xs
  Mem-sort_by less xs x m =
      All-at (λ y. Memᴰ y xs) (sort_by less xs) x
        (All-sort_by less (λ y. Memᴰ y xs) xs (All-Mem xs)) m

  pub sort_by-Mem :
      (less : A → A → Bool) (xs : List A) (x : A) → Memᴰ x xs → Memᴰ x (sort_by less xs)
  sort_by-Mem less xs x m =
      All-at (λ y. Memᴰ y (sort_by less xs)) xs x
        (sort_by-All less (λ y. Memᴰ y (sort_by less xs)) xs (All-Mem (sort_by less xs))) m
