-- ===== src/Disk/Laws.antt =====
-- Lookups after the changes of a disk.
use pve_meta.Shared.{
  true, none, some, [], ◌∷◌, eq_iff, eq_refl, if◌then◌else◌, ◌≡◌, ◌↔◌, refl, arith,
}
use pve_meta.Disk.{Disk, FilePath, Node, same_path, lookup, put, erase}

pub same_path_iff : (p q : FilePath) → (same_path p q ≡ true) ↔ (p ≡ q)
unfolding same_path
same_path_iff p q = (
  (λ h. path_eq ((eq_iff p.dir q.dir).0 (ground arith)) ((eq_iff p.name q.name).0 (ground arith))),
  λ h. rw h (rw (eq_refl q.dir, eq_refl q.name)),
)
  where
    path_eq : p.dir ≡ q.dir → p.name ≡ q.name → p ≡ q
    path_eq h k = cc

pub same_path_refl : (p : FilePath) → same_path p p ≡ true
same_path_refl p = (same_path_iff p p).1 refl

module _ {B : Type 0} where
  pub lookup-put :
      (p q : FilePath) (n : Node B) (disk : Disk B)
      → lookup q (put p n disk) ≡ (if same_path p q then some n else lookup q disk)
  unfolding lookup put
  lookup-put p q n [] = refl
  lookup-put p q n ((r, m) ∷ disk) =
      ground (arith, same_path_iff p q, same_path_iff r p, same_path_iff r q, lookup-put p q n disk)

  pub lookup-erase :
      (p q : FilePath) (disk : Disk B)
      → lookup q (erase p disk) ≡ (if same_path p q then none else lookup q disk)
  unfolding lookup erase
  lookup-erase p q [] = ground arith
  lookup-erase p q ((r, m) ∷ disk) =
      ground (arith, same_path_iff p q, same_path_iff r p, same_path_iff r q, lookup-erase p q disk)

  pub ruleset disk_laws = (lookup-put, lookup-erase)
