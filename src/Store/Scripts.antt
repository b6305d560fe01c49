-- ===== src/Store/Scripts.antt =====
-- The ways that the script of a write (Store.Calls) can go.
use pve_meta.Shared.{ℕ, String, Option, none, some, ◌≡◌, ap, ◌∙◌}
use pve_meta.Disk.{FilePath, Node, regular, Disk, lookup, put, erase, blocked_node}
use pve_meta.Disk.Laws.{lookup-put, same_path_refl}
use pve_meta.Error.{Error, ok, err}
use pve_meta.Store.Calls.{
  FsCall, fs_write, fs_rename, Script, call, apply_call, wrote, moved, run_script, after_write,
  after_rename, write_script,
}

module _ {B : Type 0} where
  run_script-call :
      {A : Type 0} (now : ℕ) (c : FsCall B) (next : Option String → Script B A)
      (disk disk' : Disk B) (failure : Option String)
      → apply_call now c disk ≡ (disk', failure)
      → run_script now (call c next) disk ≡ run_script now (next failure) disk'
  unfolding run_script
  run_script-call now c next disk disk' failure h = ap (λ a. run_script now (next a.1) a.0) h

  pub write_works :
      (now : ℕ) (path : FilePath) (bytes : B) (disk : Disk B)
      → blocked_node (lookup path disk) ≡ none
      → apply_call now (fs_write path bytes) disk ≡ (put path (regular bytes now) disk, none)
  unfolding apply_call wrote
  write_works now path bytes disk h = rw h

  pub write_fails :
      (now : ℕ) (path : FilePath) (bytes : B) (disk : Disk B) (msg : String)
      → blocked_node (lookup path disk) ≡ some msg
      → apply_call now (fs_write path bytes) disk ≡ (disk, some msg)
  unfolding apply_call wrote
  write_fails now path bytes disk msg h = rw h

  pub rename_works :
      (now : ℕ) (from to : FilePath) (node : Node B) (disk : Disk B)
      → lookup from disk ≡ some node
      → blocked_node (lookup to disk) ≡ none
      → apply_call now (fs_rename from to) disk ≡ (put to node (erase from disk), none)
  unfolding apply_call moved
  rename_works now from to node disk there h = rw (there, h)

  pub rename_fails :
      (now : ℕ) (from to : FilePath) (disk : Disk B) (msg : String)
      → blocked_node (lookup to disk) ≡ some msg
      → apply_call now (fs_rename from to) disk ≡ (disk, some msg)
  unfolding apply_call moved
  rename_fails now from to disk msg h = rw h

  module _ (now : ℕ) (temp path : FilePath) (bytes : B) (disk : Disk B) where
    pub written_there : lookup temp (put temp (regular bytes now) disk) ≡ some (regular bytes now)
    written_there = lookup-put temp temp (regular bytes now) disk ∙ rw (same_path_refl temp)

    -- the temporary file cannot be written
    pub script-blocked :
        (msg : String)
        → blocked_node (lookup temp disk) ≡ some msg
        → run_script now (write_script temp path bytes) disk ≡ (disk, err (Error.io msg))
    unfolding run_script write_script after_write
    script-blocked msg h =
        run_script-call now (fs_write temp bytes) (after_write temp path) disk disk (some msg)
          (write_fails now temp bytes disk msg h)

    -- the temporary file cannot be renamed
    pub script-refused :
        (msg : String)
        → blocked_node (lookup temp disk) ≡ none
        → blocked_node (lookup path (put temp (regular bytes now) disk)) ≡ some msg
        → run_script now (write_script temp path bytes) disk
          ≡ (erase temp (put temp (regular bytes now) disk), err (Error.io msg))
    unfolding run_script write_script after_write after_rename apply_call
    script-refused msg h k =
        let there = put temp (regular bytes now) disk in
        run_script-call now (fs_write temp bytes) (after_write temp path) disk there none
          (write_works now temp bytes disk h)
        ∙ run_script-call now (fs_rename temp path) (after_rename temp) there there (some msg)
            (rename_fails now temp path there msg k)

    -- all is done
    pub script-done :
        blocked_node (lookup temp disk) ≡ none
        → blocked_node (lookup path (put temp (regular bytes now) disk)) ≡ none
        → run_script now (write_script temp path bytes) disk
          ≡ (put path (regular bytes now) (erase temp (put temp (regular bytes now) disk)), ok tt)
    unfolding run_script write_script after_write after_rename
    script-done h k =
        let there = put temp (regular bytes now) disk in
        run_script-call now (fs_write temp bytes) (after_write temp path) disk there none
          (write_works now temp bytes disk h)
        ∙ run_script-call now (fs_rename temp path) (after_rename temp) there
            (put path (regular bytes now) (erase temp there)) none
            (rename_works now temp path (regular bytes now) there written_there k)
