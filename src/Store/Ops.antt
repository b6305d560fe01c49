-- ===== src/Store/Ops.antt =====
-- The operations of store.rs that change the disk.
use pve_meta.Shared.{ℕ, ◌+◌, String, Bool, true, false, Option, none, some, if◌then◌else◌}
use pve_meta.Json.{Value}
use Prim.Native.String.{◌++◌ as concat}
use pve_meta.Shared.Decimal.{to_string}
use pve_meta.Disk.{
  FilePath, Io, gone_is_none, Meta, lookup, erase, read_node, meta_node, remove_node,
}
use pve_meta.DocId.{DocId, guest}
use pve_meta.Error.{Error, Result, ok, err, ◌>>=◌, ◌>>◌}
use pve_meta.Format.Texts.{Libraries, parse, normalize_trailing_newline}
use pve_meta.Store.Calls.{run_script, write_script}
use pve_meta.Store.{
  MetaStore, World, Document, RollbackOutcome, restored, removed_no_snapshot, no_op, disk_format,
  is_valid_snapshot_name, check_available, path_for, snapshot_path, check_size, digest_of,
  check_digest,
}

-- the time that a file's new entry has, or that of the call
unfoldable pub modified_or : ℕ → Option Meta → ℕ
modified_or now none = now
modified_or now (some meta) = meta.modified

module _ {N B : Type 0} (libs : Libraries N B) (store : MetaStore) where
  -- a sibling of the path
  unfoldable pub temp_path : FilePath → ℕ → FilePath
  temp_path path seq = record {
    dir = path.dir;
    name =
        concat "."
          (concat path.name (concat ".tmp." (concat store.writer (concat "." (to_string seq)))));
  }

  -- `write_atomic`; a directory is there once a file is put into it.
  unfoldable pub write_atomic : World B → FilePath → B → World B × Result (Unit {0})
  write_atomic w path bytes =
      let (disk, answer) =
        run_script w.now (write_script (temp_path path w.write_seq) path bytes) w.disk in
      (record w { disk = disk; write_seq = w.write_seq + 1 }, answer)

  unfoldable pub document_written :
      DocId
      → FilePath
      → String
      → Value N
      → World B × Result (Unit {0})
      → World B × Result (Document N)
  document_written id path raw value (w, err e) = (w, err e)
  document_written id path raw value (w, ok done) = (
    w,
    do
      meta ← gone_is_none (meta_node libs.size (lookup path w.disk))
      ok (record {
        id = id;
        path = path;
        raw = raw;
        value = value;
        parse_error = none;
        digest = libs.sha256 (libs.bytes_of raw);
        mtime = modified_or w.now meta;
      }),
  )

  -- what is checked before a write, and gives the value of the text
  unfoldable pub accept : World B → DocId → String → Option String → Result (Value N)
  accept w id raw expected = do
    check_available libs store w
    current ← digest_of libs store w id
    check_digest current expected
    check_size libs store (libs.size (libs.bytes_of raw))
    parse libs disk_format raw

  unfoldable pub put_accepted :
      World B → DocId → String → Result (Value N) → World B × Result (Document N)
  put_accepted w id raw (err e) = (w, err e)
  put_accepted w id raw (ok value) =
      document_written id (path_for libs store id) raw value
        (write_atomic w (path_for libs store id) (libs.bytes_of raw))

  unfoldable pub put_raw : World B → DocId → String → Option String → World B × Result (Document N)
  put_raw w id text expected =
      let raw = normalize_trailing_newline text in put_accepted w id raw (accept w id raw expected)

  unfoldable pub removed : World B → FilePath → Io (Unit {0}) → World B × Result Bool
  removed w path (Io.done _) = (record w { disk = erase path w.disk }, ok true)
  removed w path Io.gone = (w, ok false)
  removed w path (Io.failed msg) = (w, err (Error.io msg))

  -- `fs::remove_file` of a path, for whether there was a file
  unfoldable pub remove_path : World B → FilePath → World B × Result Bool
  remove_path w path = removed w path (remove_node (lookup path w.disk))

  -- an operation behind checks that leave the world alone
  unfoldable pub after_checks :
      {A : Type 0} → Result (Unit {0}) → World B → World B × Result A → World B × Result A
  after_checks (ok done) w answer = answer
  after_checks (err e) w answer = (w, err e)

  unfoldable pub check_snapshot_name : World B → String → Result (Unit {0})
  check_snapshot_name w name =
      check_available libs store w
      >> (if is_valid_snapshot_name name then ok tt else err (Error.invalid_name name))

  unfoldable pub delete : World B → DocId → World B × Result Bool
  delete w id =
      after_checks (check_available libs store w) w (remove_path w (path_for libs store id))

  unfoldable pub as_true : World B × Result (Unit {0}) → World B × Result Bool
  as_true (w, ok done) = (w, ok true)
  as_true (w, err e) = (w, err e)

  unfoldable pub copied : World B → FilePath → Io B → World B × Result Bool
  copied w path (Io.done bytes) = as_true (write_atomic w path bytes)
  copied w path Io.gone = (w, ok false)
  copied w path (Io.failed msg) = (w, err (Error.io msg))

  unfoldable pub snapshot : World B → ℕ → String → World B × Result Bool
  snapshot w vmid name = after_checks (check_snapshot_name w name) w (
      copied w (snapshot_path libs store vmid name)
        (read_node (lookup (path_for libs store (guest vmid)) w.disk)))

  unfoldable pub as_restored : World B × Result (Unit {0}) → World B × Result RollbackOutcome
  as_restored (w, ok done) = (w, ok restored)
  as_restored (w, err e) = (w, err e)

  unfoldable pub as_removed : World B × Result Bool → World B × Result RollbackOutcome
  as_removed (w, ok true) = (w, ok removed_no_snapshot)
  as_removed (w, ok false) = (w, ok no_op)
  as_removed (w, err e) = (w, err e)

  unfoldable pub rolled_back : World B → FilePath → Io B → World B × Result RollbackOutcome
  rolled_back w target (Io.done bytes) = as_restored (write_atomic w target bytes)
  rolled_back w target Io.gone = as_removed (remove_path w target)
  rolled_back w target (Io.failed msg) = (w, err (Error.io msg))

  unfoldable pub rollback : World B → ℕ → String → World B × Result RollbackOutcome
  rollback w vmid name = after_checks (check_snapshot_name w name) w (
      rolled_back w (path_for libs store (guest vmid))
        (read_node (lookup (snapshot_path libs store vmid name) w.disk)))

  unfoldable pub delete_snapshot : World B → ℕ → String → World B × Result Bool
  delete_snapshot w vmid name =
      after_checks (check_snapshot_name w name) w
        (remove_path w (snapshot_path libs store vmid name))
