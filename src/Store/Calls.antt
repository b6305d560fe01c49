-- ===== src/Store/Calls.antt =====
-- The calls of the file system of which `write_atomic` of crates/pve-meta-core/src/store.rs is made:
-- a script makes one call after the other, and goes on by what each one answers. What a script leaves
-- when it is run, and what an interruption of it can leave, are both read off the script.
use pve_meta.Shared.{ℕ, Option, none, some, ◌≡◌, ◌⊎◌, String}
use pve_meta.Disk.{FilePath, Node, regular, Disk, lookup, put, erase, blocked_node}
use pve_meta.Error.{Error, Result, ok, err}

pub data FsCall (B : Type 0) : Type 0 where
  fs_write : FilePath → B → FsCall B
  fs_rename : FilePath → FilePath → FsCall B
  fs_remove_file : FilePath → FsCall B

pub data Script (B A : Type 0) : Type 0 where
  give : A → Script B A
  call : FsCall B → (Option String → Script B A) → Script B A

module _ {B : Type 0} where
  unfoldable pub wrote : FilePath → Node B → Disk B → Option String → Disk B × Option String
  wrote path node disk (some msg) = (disk, some msg)
  wrote path node disk none = (put path node disk, none)

  unfoldable pub moved :
      FilePath → FilePath → Disk B → Option (Node B) → Option String → Disk B × Option String
  moved from to disk found (some msg) = (disk, some msg)
  moved from to disk none none = (disk, some "No such file or directory")
  moved from to disk (some node) none = (put to node (erase from disk), none)

  -- the disk after a call at a time, and why it failed, if it did
  unfoldable pub apply_call : ℕ → FsCall B → Disk B → Disk B × Option String
  unfolding wrote moved
  apply_call now (fs_write path bytes) disk =
      wrote path (regular bytes now) disk (blocked_node (lookup path disk))
  apply_call now (fs_rename from to) disk =
      moved from to disk (lookup from disk) (blocked_node (lookup to disk))
  apply_call now (fs_remove_file path) disk = (erase path disk, none)

  unfoldable pub run_script : {A : Type 0} → ℕ → Script B A → Disk B → Disk B × A
  run_script now (give a) disk = (disk, a)
  run_script now (call c next) disk =
      run_script now (next (apply_call now c disk).1) (apply_call now c disk).0

  unfoldable pub after_rename : FilePath → Option String → Script B (Result (Unit {0}))
  after_rename temp (some msg) = call (fs_remove_file temp) (λ _. give (err (Error.io msg)))
  after_rename temp none = give (ok tt)

  unfoldable pub after_write : FilePath → FilePath → Option String → Script B (Result (Unit {0}))
  unfolding after_rename
  after_write temp path (some msg) = give (err (Error.io msg))
  after_write temp path none = call (fs_rename temp path) (after_rename temp)

  -- `write_atomic`, from the write of the temporary file on
  unfoldable pub write_script : FilePath → FilePath → B → Script B (Result (Unit {0}))
  unfolding after_write
  write_script temp path bytes = call (fs_write temp bytes) (after_write temp path)

  -- A write under way leaves any part of what it writes; the other calls are atomic.
  abbrev pub IsTorn : ℕ → FsCall B → Disk B → Disk B → Type 0
  IsTorn now (fs_write path bytes) disk left =
      (blocked_node (lookup path disk) ≡ none)
      × ((part : B) × (left ≡ put path (regular part now) disk))
  IsTorn now (fs_rename from to) disk left = ⊥
  IsTorn now (fs_remove_file path) disk left = ⊥

  -- What an interruption of a script can leave: the disk before its next call, one that this call has
  -- torn, or what an interruption after this call can leave.
  abbrev pub Interrupted : {A : Type 0} → ℕ → Script B A → Disk B → Disk B → Type 0
  Interrupted now (give a) disk left = left ≡ disk
  Interrupted now (call c next) disk left =
      (left ≡ disk)
      ⊎ (IsTorn now c disk left
          ⊎ Interrupted now (next (apply_call now c disk).1) (apply_call now c disk).0 left)
