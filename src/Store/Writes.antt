-- ===== src/Store/Writes.antt =====
-- What `write_atomic` and the removal of a path, in store.rs, leave at every path.
use pve_meta.Shared.{
  ℕ, false, ◌&&◌, Option, none, some, if◌then◌else◌, ◌≡◌, inl, inr, refl, Bool-cases, Option-cases,
}
use pve_meta.Disk.{
  Io, Disk, FilePath, Node, regular, same_path, lookup, put, erase, remove_node, blocked_node,
}
use pve_meta.Disk.Laws.{lookup-put, lookup-erase, same_path_iff}
use pve_meta.Format.Texts.{Libraries}
use pve_meta.View.Descent.{is_ok}
use pve_meta.Store.{MetaStore, World}
use pve_meta.Store.Calls.{run_script, write_script}
use pve_meta.Store.Scripts.{script-blocked, script-refused, script-done}
use pve_meta.Store.Ops.{removed, temp_path, write_atomic, remove_path}

module _ {N B : Type 0} (libs : Libraries N B) (store : MetaStore) where
  -- A path that no write uses for a temporary file, whose name begins with a dot.
  abbrev pub IsVisible : FilePath → Type 0
  IsVisible q = (path : FilePath) (seq : ℕ) → same_path (temp_path libs store path seq) q ≡ false

  lookup-script :
      (now : ℕ) (temp path q : FilePath) (bytes : B) (disk : Disk B)
      → same_path temp q ≡ false
      → lookup q (run_script now (write_script temp path bytes) disk).0 ≡ (
          if is_ok (run_script now (write_script temp path bytes) disk).1 && same_path path q
          then some (regular bytes now)
          else lookup q disk)
  lookup-script now temp path q bytes disk h =
      elim (Option-cases (blocked_node (lookup temp disk))) [
        | inr (msg, blocked) ↦ rw (script-blocked now temp path bytes disk msg blocked)
        | inl free ↦
            elim (Option-cases (blocked_node (lookup path (put temp (regular bytes now) disk)))) [
              | inr (msg, refused) ↦ rw (
                script-refused now temp path bytes disk msg free refused,
                lookup-erase temp q (put temp (regular bytes now) disk),
                lookup-put temp q (regular bytes now) disk,
                h,
              )
              | inl writable ↦ rw (
                script-done now temp path bytes disk free writable,
                lookup-put path q (regular bytes now)
                    (erase temp (put temp (regular bytes now) disk)),
                lookup-erase temp q (put temp (regular bytes now) disk),
                lookup-put temp q (regular bytes now) disk,
                h,
              )
            ]
      ]

  -- After an atomic write that succeeds the path has the bytes and every other visible path what it
  -- had; after one that fails every visible path has what it had.
  pub lookup-write_atomic :
      (w : World B) (path q : FilePath) (bytes : B)
      → IsVisible q
      → lookup q (write_atomic libs store w path bytes).0.disk ≡ (
          if is_ok (write_atomic libs store w path bytes).1 && same_path path q
          then some (regular bytes w.now)
          else lookup q w.disk)
  unfolding write_atomic
  lookup-write_atomic w path q bytes visible =
      lookup-script w.now (temp_path libs store path w.write_seq) path q bytes w.disk
        (visible path w.write_seq)

  nothing_there : (o : Option (Node B)) → remove_node o ≡ Io.gone → o ≡ none
  unfolding remove_node
  nothing_there none h = refl
  nothing_there (some (Node.regular bytes time)) h = absurd (cc h)
  nothing_there (some Node.directory) h = absurd (cc h)
  nothing_there (some (Node.failing msg)) h = absurd (cc h)

  lookup-removed :
      (w : World B) (path q : FilePath) (answer : Io (Unit {0}))
      → remove_node (lookup path w.disk) ≡ answer
      → lookup q (removed libs store w path answer).0.disk ≡ (
          if is_ok (removed libs store w path answer).1 && same_path path q
          then none
          else lookup q w.disk)
  unfolding removed
  lookup-removed w path q (Io.done _) h = lookup-erase path q w.disk
  lookup-removed w path q (Io.failed msg) h = refl
  lookup-removed w path q Io.gone h = elim (Bool-cases (same_path path q)) [
    | inl same ↦
        let here = nothing_there (lookup path w.disk) h in
        rw (same, ← (same_path_iff path q).0 same) here
    | inr other ↦ rw other
  ]

  -- A removal that succeeds leaves the path without a file; every other path is as it was.
  pub lookup-remove_path :
      (w : World B) (path q : FilePath)
      → lookup q (remove_path libs store w path).0.disk ≡ (
          if is_ok (remove_path libs store w path).1 && same_path path q
          then none
          else lookup q w.disk)
  unfolding remove_path
  lookup-remove_path w path q = lookup-removed w path q (remove_node (lookup path w.disk)) refl
