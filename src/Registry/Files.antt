-- ===== src/Registry/Files.antt =====
-- Which of the files of one name is read (crates/pve-meta-core/src/registry.rs). A directory is
-- what the caller has for it; whether a directory holds a file, or something that cannot be looked
-- at, is a parameter.
use pve_meta.Shared.{
  ℕ, zero, suc, ◌+◌, String, Bool, true, false, Option, none, some, List, [], ◌∷◌, ◌++◌, length,
  if◌then◌else◌, ◌==◌, ◌≡◌, inl, inr, refl, arith, Bool-cases, Option-cases, All,
}
use Prim.Native.String.{◌++◌ as concat}
use mathlib.Core.Path.{subst}
use pve_meta.Registry.{Origin, packaged, cluster}

module _ {D : Type 0} where
  unfoldable pub enumerate : ℕ → List D → List (ℕ × D)
  enumerate i [] = []
  enumerate i (d ∷ dirs) = (i, d) ∷ enumerate (i + 1) dirs

  unfoldable pub reverse : List (ℕ × D) → List (ℕ × D)
  reverse [] = []
  reverse (x ∷ xs) = reverse xs ++ x ∷ []

  unfoldable pub find : (ℕ × D → Bool) → List (ℕ × D) → Option (ℕ × D)
  find p [] = none
  find p (x ∷ xs) = if p x then some x else find p xs

  unfoldable pub layers_from : ℕ → ℕ → List D → List (D × Origin)
  layers_from n i [] = []
  layers_from n i (d ∷ dirs) =
      (d, (if i + 1 == n then cluster else packaged)) ∷ layers_from n (i + 1) dirs

  unfoldable pub cluster_layers : List D → List (D × Origin)
  unfolding layers_from
  cluster_layers dirs = layers_from (length dirs) 0 dirs

  -- `Registry::write_dir`
  unfoldable pub write_dir : List D → Option D
  write_dir [] = none
  write_dir (d ∷ []) = some d
  write_dir (d ∷ c ∷ dirs) = write_dir (c ∷ dirs)

  unfoldable pub origin_at : List (D × Origin) → ℕ → Option Origin
  origin_at [] i = none
  origin_at ((d, o) ∷ layers) zero = some o
  origin_at ((d, o) ∷ layers) (suc i) = origin_at layers i

module _ {D : Type 0} (is_present : D → String → Bool) where
  -- The file is the directory and the name in it.
  unfoldable pub effective_file : List D → String → Option (ℕ × D)
  effective_file dirs name =
      let file = concat name ".yaml" in
      find (λ entry. is_present entry.1 file) (reverse (enumerate 0 dirs))

  -- The last of the directories that hold the file, at its place.
  pub data IsLast (file : String) : ℕ → List D → ℕ × D → Type 0 where
    found :
        {i : ℕ} {d : D} {dirs : List D}
        → is_present d file ≡ true
        → All (λ other. is_present other file ≡ false) dirs
        → IsLast file i (d ∷ dirs) (i, d)
    later :
        {i : ℕ} {c : D} {dirs : List D} {x : ℕ × D}
        → IsLast file (i + 1) dirs x
        → IsLast file i (c ∷ dirs) x

  find-append :
      (p : ℕ × D → Bool) (xs ys : List (ℕ × D))
      → find p (xs ++ ys) ≡ elim (find p xs) [ none ↦ find p ys | some x ↦ some x ]
  unfolding find
  find-append p [] ys = refl
  find-append p (x ∷ xs) ys = ground (arith, find-append p xs ys)

  found_in : String → ℕ → List D → Option (ℕ × D)
  found_in file i dirs = find (λ entry. is_present entry.1 file) (reverse (enumerate i dirs))

  found_in-nil : (file : String) (i : ℕ) → found_in file i [] ≡ none
  unfolding found_in reverse enumerate find
  found_in-nil file i = refl

  found-step :
      (file : String) (i : ℕ) (d : D) (dirs : List D)
      → found_in file i (d ∷ dirs) ≡ elim (found_in file (i + 1) dirs) [
        | none ↦ if is_present d file then some (i, d) else none
        | some x ↦ some x
      ]
  unfolding found_in reverse enumerate find
  found-step file i d dirs =
      find-append (λ entry. is_present entry.1 file) (reverse (enumerate (i + 1) dirs))
        ((i, d) ∷ [])

  nothing_found :
      (file : String) (i : ℕ) (dirs : List D)
      → found_in file i dirs ≡ none
      → All (λ d. is_present d file ≡ false) dirs
  nothing_found file i [] h = tt
  nothing_found file i (d ∷ dirs) h = elim (Option-cases (found_in file (i + 1) dirs)) [
    | inl n ↦
        let mine = rw (found-step, n) at h in (ground arith, nothing_found file (i + 1) dirs n)
    | inr (x, q) ↦ absurd (cc (rw (found-step, q) at h))
  ]

  here_found :
      (file : String) (i : ℕ) (d : D) (dirs : List D) (x : ℕ × D)
      → (if is_present d file then some (i, d) else none) ≡ some x
      → All (λ other. is_present other file ≡ false) dirs
      → IsLast file i (d ∷ dirs) x
  here_found file i d dirs x h none_after = elim (Bool-cases (is_present d file)) [
    | inl there ↦
        let same : (i, d) ≡ x = cc (rw there at h) in
        subst (IsLast file i (d ∷ dirs)) same (found there none_after)
    | inr absent ↦ absurd (cc (rw absent at h))
  ]

  IsLast-found :
      (file : String) (i : ℕ) (dirs : List D) (x : ℕ × D)
      → found_in file i dirs ≡ some x
      → IsLast file i dirs x
  IsLast-found file i [] x h = absurd (cc (rw (found_in-nil file i) at h))
  IsLast-found file i (c ∷ dirs) x h = elim (Option-cases (found_in file (i + 1) dirs)) [
    | inl n ↦
        let mine = rw (found-step, n) at h in
        here_found file i c dirs x mine (nothing_found file (i + 1) dirs n)
    | inr (y, q) ↦
        let same : y ≡ x = cc (rw (found-step, q) at h) in
        later (IsLast-found file (i + 1) dirs x (rw same at q))
  ]

  -- The file that is read stands in a directory that holds it, at its place in the list, and no
  -- directory after that one holds it.
  pub effective_file-IsLast :
      (dirs : List D) (name : String) (x : ℕ × D)
      → effective_file dirs name ≡ some x
      → IsLast (concat name ".yaml") 0 dirs x
  effective_file-IsLast dirs name x h =
      IsLast-found (concat name ".yaml") 0 dirs x (unfold effective_file found_in in h)

  -- Where no file is found, no directory holds one.
  pub effective_file-none :
      (dirs : List D) (name : String)
      → effective_file dirs name ≡ none
      → All (λ d. is_present d (concat name ".yaml") ≡ false) dirs
  effective_file-none dirs name h =
      nothing_found (concat name ".yaml") 0 dirs (unfold effective_file found_in in h)

  origin_cluster :
      (n k j : ℕ) (dirs : List D)
      → origin_at (layers_from n k dirs) j ≡ some cluster
      → k + j + 1 ≡ n
  unfolding layers_from origin_at
  origin_cluster n k j [] h = absurd (cc h)
  origin_cluster n k zero (d ∷ dirs) h = ground arith
  origin_cluster n k (suc j) (d ∷ dirs) h =
      let ih = origin_cluster n (k + 1) j dirs h in omega arith

  last_written :
      (file : String) (k : ℕ) (dirs : List D) (x : ℕ × D)
      → IsLast file k dirs x
      → x.0 + 1 ≡ k + length dirs
      → write_dir dirs ≡ some x.1
  unfolding write_dir
  last_written file k _ x (found {dirs = []} there absent) q = refl
  last_written file k _ x (found {dirs = d ∷ dirs} there absent) q = absurd (omega arith)
  last_written file k _ x (later {dirs = []} r) q = elim r [ ]
  last_written file k _ x (later {dirs = d ∷ dirs} r) q =
      last_written file (k + 1) (d ∷ dirs) x r (omega arith)

  -- A file that is listed as the cluster's stands in the directory that a write lands in.
  pub cluster_file_written :
      (dirs : List D) (name : String) (x : ℕ × D)
      → effective_file dirs name ≡ some x
      → origin_at (cluster_layers dirs) x.0 ≡ some cluster
      → write_dir dirs ≡ some x.1
  cluster_file_written dirs name x h o =
      last_written (concat name ".yaml") 0 dirs x (effective_file-IsLast dirs name x h) (
        let last_index = origin_cluster (length dirs) 0 x.0 dirs (unfold cluster_layers in o) in
        omega arith)
