-- ===== src/Store/Interruptions.antt =====
-- What an interruption of `write_atomic` of crates/pve-meta-core/src/store.rs can leave.
use pve_meta.Shared.{
  ℕ, true, false, none, some, ◌≡◌, ◌⊎◌, inl, inr, refl, ap, ◌∙◌, Bool-cases, Option-cases,
}
use pve_meta.Disk.{FilePath, Node, regular, Disk, same_path, lookup, put, erase, blocked_node}
use pve_meta.Disk.Laws.{lookup-put, lookup-erase, same_path_refl}
use pve_meta.Format.Texts.{Libraries}
use pve_meta.Store.{MetaStore, World}
use pve_meta.Store.Calls.{
  apply_call, wrote, moved, after_rename, after_write, run_script, write_script, Interrupted,
}
use pve_meta.Store.Ops.{temp_path, write_atomic}
use pve_meta.Store.Writes.{IsVisible}

module _ {B : Type 0} (q : FilePath) where
  -- a path has what it had, or is the one written to and has all of the bytes
  abbrev pub IsWhole : FilePath → Node B → Disk B → Disk B → Type 0
  IsWhole path new before left =
      (lookup q left ≡ lookup q before) ⊎ ((same_path path q ≡ true) × (lookup q left ≡ some new))

  module _ (now : ℕ) (temp path : FilePath) (bytes : B) (before : Disk B)
      (apart : same_path temp q ≡ false) where
    abbrev with_temp : Disk B
    with_temp = put temp (regular bytes now) before

    temp_unseen : (node : Node B) (disk : Disk B) → lookup q (put temp node disk) ≡ lookup q disk
    temp_unseen node disk = lookup-put temp q node disk ∙ rw apart

    erased_unseen : (disk : Disk B) → lookup q (erase temp disk) ≡ lookup q disk
    erased_unseen disk = lookup-erase temp q disk ∙ rw apart

    renamed-IsWhole :
        (disk : Disk B)
        → lookup q disk ≡ lookup q before
        → IsWhole path (regular bytes now) before (put path (regular bytes now) (erase temp disk))
    renamed-IsWhole disk h =
        let at_q = lookup-put path q (regular bytes now) (erase temp disk) in
        elim (Bool-cases (same_path path q)) [
          | inl same ↦ inr (same, at_q ∙ rw same)
          | inr other ↦ inl (at_q ∙ (rw other (erased_unseen disk) ∙ h))
        ]

    -- from the renaming on
    rename-IsWhole :
        (disk left : Disk B)
        → lookup q disk ≡ lookup q before
        → lookup temp disk ≡ some (regular bytes now)
        → Interrupted now (after_write temp path none) disk left
        → IsWhole path (regular bytes now) before left
    unfolding after_write after_rename apply_call moved
    rename-IsWhole disk left h there (inl same) = inl (ap (lookup q) same ∙ h)
    rename-IsWhole disk left h there (inr (inl torn)) = absurd torn
    rename-IsWhole disk left h there (inr (inr later)) =
        elim (Option-cases (blocked_node (lookup path disk))) [
          | inl free ↦ let done = rw (there, free) at later in rw done (renamed-IsWhole disk h)
          | inr (msg, blocked) ↦ elim (rw blocked at later) [
            | inl same ↦ inl (ap (lookup q) same ∙ h)
            | inr (inl torn) ↦ absurd torn
            | inr (inr removed) ↦ inl (ap (lookup q) removed ∙ (erased_unseen disk ∙ h))
          ]
        ]

    script-IsWhole :
        (left : Disk B)
        → Interrupted now (write_script temp path bytes) before left
        → IsWhole path (regular bytes now) before left
    unfolding write_script apply_call wrote after_write
    script-IsWhole left (inl same) = inl (ap (lookup q) same)
    script-IsWhole left (inr (inl (free, (part, torn)))) =
        inl (ap (lookup q) torn ∙ temp_unseen (regular part now) before)
    script-IsWhole left (inr (inr later)) =
        elim (Option-cases (blocked_node (lookup temp before))) [
          | inl free ↦
              rename-IsWhole with_temp left (temp_unseen (regular bytes now) before)
                (lookup-put temp temp (regular bytes now) before ∙ rw (same_path_refl temp))
                (rw free at later)
          | inr (msg, blocked) ↦ let same = rw blocked at later in inl (ap (lookup q) same)
        ]

-- An atomic write runs a script to its end, and leaves the disk and the answer of that; and wherever
-- the script is interrupted, before a call, within one or after it, each path but a temporary file's
-- has what it had, or it is the path written to and has all of the new bytes.
pub Interrupted-IsWhole :
    {N B : Type 0} (libs : Libraries N B) (store : MetaStore) (w : World B) (path q : FilePath)
    (bytes : B) (left : Disk B)
    → Interrupted w.now
        (write_script (temp_path libs store path w.write_seq) path bytes)
        w.disk
        left
    → IsVisible libs store q
    → (((write_atomic libs store w path bytes).0.disk, (write_atomic libs store w path bytes).1)
        ≡ run_script w.now (write_script (temp_path libs store path w.write_seq) path bytes) w.disk)
      × ((lookup q left ≡ lookup q w.disk)
          ⊎ ((same_path path q ≡ true) × (lookup q left ≡ some (regular bytes w.now))))
unfolding write_atomic
Interrupted-IsWhole libs store w path q bytes left h visible = (
  refl,
  script-IsWhole q w.now (temp_path libs store path w.write_seq) path bytes w.disk
      (visible path w.write_seq) left h,
)
