-- ===== src/Store.antt =====
-- crates/pve-meta-core/src/store.rs: the file store. A read is a function of the world, a write
-- gives the world as it leaves it, beside its answer.
pub mod Names
pub mod Calls
pub mod Scripts
pub mod Ops
pub mod Writes
pub mod Refines
pub mod Contents
pub mod Visible
pub mod Accepted
pub mod Snapshots
pub mod Sound
pub mod Progress
pub mod Interruptions
pub mod Listings
pub mod Prefixes
pub mod Spec
use pve_meta.Shared.{
  ℕ, String, Bool, true, false, not, ◌&&◌, ◌||◌, Option, none, some, List, [], str_eq,
  if◌then◌else◌, is_some, leb, ltb, ◌==◌, code,
}
use pve_meta.Json.{Value, object, end}
use Prim.Native.String.{◌++◌ as concat}
use Prim.Native.String
use Prim.Native.Nat.{◌*◌}
use pve_meta.Shared.Decimal.{to_string}
use pve_meta.Disk.{
  FilePath, Disk, Io, done, gone, failed, gone_is_none, Meta, lookup, read_node, meta_node,
}
use pve_meta.DocId.{DocId, guest, registry, as_str}
use pve_meta.DocPath.{is_ascii_alphanumeric}
use pve_meta.Error.{Error, Result, ok, err, display_error, ◌>>=◌, ◌>>◌}
use pve_meta.Format.{Format, yaml, from_ext}
use pve_meta.Format.Texts.{Libraries, parse_raw, parse}
use pve_meta.Registry.Files.{effective_file, write_dir}

abbrev pub warn_bytes : ℕ
warn_bytes = 256 * 1024

abbrev pub max_bytes : ℕ
max_bytes = 512 * 1024

abbrev pub max_read_bytes : ℕ
max_read_bytes = 4 * 1024 * 1024

abbrev pub disk_format : Format
disk_format = yaml

-- `DocId::base_name`
unfoldable pub base_name : DocId → String
base_name (guest vmid) = to_string vmid
base_name (registry kind name) = name

pub record Document (N : Type 0) : Type 0 where
  pub id : DocId
  pub path : FilePath
  pub raw : String
  pub value : Value N
  pub parse_error : Option String
  pub digest : String
  pub mtime : ℕ

pub data RollbackOutcome : Type 0 where
  restored removed_no_snapshot no_op : RollbackOutcome

-- the characters after the first of a snapshot name
unfoldable pub snapshot_chars : String → Bool
unfolding is_ascii_alphanumeric
snapshot_chars String.[] = true
snapshot_chars (String.◌∷◌ c s) =
    (is_ascii_alphanumeric (code c) || code c == b'_' || code c == b'-') && snapshot_chars s

unfoldable pub is_alphabetic : ℕ → Bool
is_alphabetic c = (leb b'A' c && leb c b'Z') || (leb b'a' c && leb c b'z')

unfoldable pub starts_alphabetic : String → Bool
unfolding is_alphabetic snapshot_chars
starts_alphabetic String.[] = false
starts_alphabetic (String.◌∷◌ c s) = is_alphabetic (code c) && snapshot_chars s

unfoldable pub is_valid_snapshot_name : String → Bool
unfolding starts_alphabetic
is_valid_snapshot_name name = starts_alphabetic name && not (is_some (from_ext name))

-- The store's directories, the path whose being a symbolic link says that the cluster file system
-- is there, and what tells the temporary files of this process from others'.
pub record MetaStore : Type 0 where
  pub root : String
  pub prefix_dirs : List String
  pub marker : Option String
  pub writer : String

-- The disk, whether the marker is a symbolic link, the time, and the counter of writes.
pub record World (B : Type 0) : Type 0 where
  pub disk : Disk B
  pub marker_is_link : Io Bool
  pub now : ℕ
  pub write_seq : ℕ

unfoldable pub marker_answer : String → Io Bool → Result (Unit {0})
marker_answer marker (done true) = ok tt
marker_answer marker (done false) =
    err (Error.unavailable (concat marker " is not a symlink; is pmxcfs mounted?"))
marker_answer marker gone =
    err (Error.unavailable (concat marker " is not there; is pmxcfs mounted?"))
marker_answer marker (failed msg) = err (Error.unavailable (concat marker (concat ": " msg)))

unfoldable pub or_root : String → Option String → String
or_root dir none = dir
or_root dir (some d) = d

unfoldable pub at_dir : FilePath → String → Option (ℕ × String) → FilePath
at_dir path file none = path
at_dir path file (some (index, dir)) = record { dir = dir; name = file }

unfoldable pub present_node : Io Meta → Bool
present_node (done meta) = meta.is_file
present_node gone = false
present_node (failed msg) = true

module _ {N B : Type 0} (libs : Libraries N B) (store : MetaStore) where
  unfoldable pub check_available : World B → Result (Unit {0})
  unfolding marker_answer
  check_available w = elim store.marker [
    | none ↦ ok tt
    | some marker ↦ marker_answer marker w.marker_is_link
  ]

  unfoldable pub path_for : DocId → FilePath
  unfolding base_name or_root
  path_for (registry kind name) = record {
    dir =
        or_root (concat store.root (concat "/meta.d/" (as_str kind))) (write_dir store.prefix_dirs);
    name = concat name ".yaml";
  }
  path_for (guest vmid) = record {
    dir = store.root;
    name = concat (base_name (guest vmid)) ".yaml";
  }

  -- `is_file_or_unreadable` of a file in a directory
  unfoldable pub is_present : World B → String → String → Bool
  unfolding present_node
  is_present w dir name =
      present_node (meta_node libs.size (lookup (record { dir = dir; name = name }) w.disk))

  unfoldable pub read_path_for : World B → DocId → FilePath
  unfolding at_dir
  read_path_for w (guest vmid) = path_for (guest vmid)
  read_path_for w (registry kind name) =
      at_dir (path_for (registry kind name)) (concat name ".yaml")
        (effective_file (is_present w) store.prefix_dirs name)

  unfoldable pub snapshot_path : ℕ → String → FilePath
  snapshot_path vmid name = record {
    dir = store.root;
    name = concat (to_string vmid) (concat "." (concat name ".yaml"));
  }

  unfoldable pub check_size : ℕ → Result (Unit {0})
  check_size n = if ltb max_bytes n then err (Error.too_large n max_bytes) else ok tt

  unfoldable pub check_read_size : ℕ → Result (Unit {0})
  check_read_size n = if ltb max_read_bytes n then err (Error.too_large n max_read_bytes) else ok tt

  unfoldable pub oversized : Meta → Io B → Result (Option String)
  oversized meta answer =
      if ltb max_read_bytes meta.len
      then ok (some (libs.sha256_oversized meta.len meta.modified))
      else do
        bytes ← gone_is_none answer
        ok (elim bytes [ none ↦ none | some b ↦ some (libs.sha256 b) ])

  unfoldable pub identify : World B → FilePath → Result (Option String)
  unfolding oversized
  identify w path = do
    meta ← gone_is_none (meta_node libs.size (lookup path w.disk))
    elim meta [ none ↦ ok none | some m ↦ oversized m (read_node (lookup path w.disk)) ]

  unfoldable pub or_not_found : {A : Type 0} → DocId → Option A → Result A
  or_not_found id none = err (Error.not_found id)
  or_not_found id (some a) = ok a

  unfoldable pub utf8 : String → Option String → Result String
  utf8 msg none = err (Error.parse disk_format (concat "invalid utf-8: " msg) none)
  utf8 msg (some text) = ok text

  unfoldable pub document_of :
      DocId → FilePath → String → String → ℕ → Result (Value N) → Document N
  document_of id path raw digest mtime (ok value) = record {
    id = id;
    path = path;
    raw = raw;
    value = value;
    parse_error = none;
    digest = digest;
    mtime = mtime;
  }
  document_of id path raw digest mtime (err e) = record {
    id = id;
    path = path;
    raw = raw;
    value = object end;
    parse_error = some (display_error e);
    digest = digest;
    mtime = mtime;
  }

  unfoldable pub read_document : World B → DocId → FilePath → Result (Document N)
  unfolding or_not_found utf8 document_of
  read_document w id path = do
    found ← gone_is_none (meta_node libs.size (lookup path w.disk))
    meta ← or_not_found id found
    check_read_size meta.len
    answer ← gone_is_none (read_node (lookup path w.disk))
    bytes ← or_not_found id answer
    raw ← utf8 (libs.utf8_error bytes) (libs.text_of bytes)
    ok (document_of id path raw (libs.sha256 bytes) meta.modified (parse_raw libs disk_format raw))

  unfoldable pub read : World B → DocId → Result (Document N)
  unfolding read_document
  read w id = check_available w >> read_document w id (read_path_for w id)

  unfoldable pub has_own_file : World B → DocId → Result Bool
  has_own_file w id = do
    check_available w
    found ← gone_is_none (meta_node libs.size (lookup (path_for id) w.disk))
    ok (is_some found)

  unfoldable pub digest_of : World B → DocId → Result (Option String)
  digest_of w id = check_available w >> identify w (read_path_for w id)

-- the digest of a document that may be missing
unfoldable pub or_no_digest : Option String → String
or_no_digest none = ""
or_no_digest (some d) = d

unfoldable pub check_digest : Option String → Option String → Result (Unit {0})
unfolding or_no_digest
check_digest current none = ok tt
check_digest current (some expected) =
    if str_eq (or_no_digest current) expected
    then ok tt
    else err (Error.digest_mismatch expected (or_no_digest current))

module _ {N B : Type 0} (libs : Libraries N B) (store : MetaStore) where
  unfoldable pub check_precondition : World B → DocId → Option String → Result (Unit {0})
  check_precondition w id none = ok tt
  check_precondition w id (some expected) = do
    current ← digest_of libs store w id
    check_digest current (some expected)
