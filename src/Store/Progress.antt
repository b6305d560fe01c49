-- ===== src/Store/Progress.antt =====
-- When a write succeeds.
use pve_meta.Shared.{ℕ, ◌≤◌, String, true, Option, none, some, eq_refl, ◌≡◌, refl, ap, ◌∙◌, arith}
use pve_meta.Json.{Value}
use pve_meta.Disk.{FilePath, regular, lookup, blocked_node, meta_node, gone_is_none}
use pve_meta.Disk.Laws.{lookup-put}
use pve_meta.DocId.{DocId, guest}
use pve_meta.Error.{Result, ok, err}
use pve_meta.Format.Texts.{Libraries, normalize_trailing_newline, parse}
use pve_meta.View.Descent.{is_ok}
use pve_meta.Store.{
  MetaStore, World, max_bytes, disk_format, check_size, path_for, digest_of, check_digest,
  or_no_digest,
}
use pve_meta.Store.Ops.{
  temp_path, write_atomic, accept, put_accepted, put_raw, document_written, modified_or,
}
use pve_meta.Store.Writes.{IsVisible}
use pve_meta.Store.Scripts.{script-done}
use pve_meta.Store.Names.{guest-IsVisible}
use pve_meta.Store.Contents.{document_put}
use pve_meta.Store.Refines.{written_there}
use pve_meta.Store.Visible.{available_of_digest}

-- What the file system has to allow for a file to be replaced.
abbrev pub IsWritable : {B : Type 0} → World B → FilePath → Type 0
IsWritable w path = blocked_node (lookup path w.disk) ≡ none

module _ {N B : Type 0} (libs : Libraries N B) (store : MetaStore) where
  pub write_atomic-ok :
      (w : World B) (path : FilePath) (bytes : B)
      → IsWritable w (temp_path libs store path w.write_seq)
      → IsWritable w path
      → IsVisible libs store path
      → (write_atomic libs store w path bytes).1 ≡ ok tt
  unfolding write_atomic
  write_atomic-ok w path bytes free writable visible =
      let temp = temp_path libs store path w.write_seq in
      ap (λ r. r.1)
        (script-done w.now temp path bytes w.disk free (
          ap blocked_node
            (lookup-put temp path (regular bytes w.now) w.disk ∙ rw (visible path w.write_seq))
          ∙ writable))

  pub fits_size : (n : ℕ) → n ≤ max_bytes → check_size libs store n ≡ ok tt
  unfolding check_size
  fits_size n h = ground arith

  accept-ok :
      (w : World B) (id : DocId) (raw expected : String) (current : Option String) (value : Value N)
      → digest_of libs store w id ≡ ok current
      → or_no_digest current ≡ expected
      → libs.size (libs.bytes_of raw) ≤ max_bytes
      → parse libs disk_format raw ≡ ok value
      → accept libs store w id raw (some expected) ≡ ok value
  unfolding accept check_digest
  accept-ok w id raw expected current value h same fits parsed = rw (
    available_of_digest libs store w id current h,
    h,
    same,
    eq_refl expected,
    fits_size _ fits,
    parsed,
  )

  document_after :
      (w : World B) (v : ℕ) (raw : String) (value : Value N) (answer : World B × Result (Unit {0}))
      → answer.1 ≡ ok tt
      → (is_ok answer.1 ≡ true
          → lookup (path_for libs store (guest v)) answer.0.disk
            ≡ some (regular (libs.bytes_of raw) w.now))
      → (document_written libs store (guest v) (path_for libs store (guest v)) raw value answer).1
        ≡ ok (document_put libs store w (guest v) raw value)
  unfolding document_written meta_node gone_is_none modified_or
  document_after w v raw value (w', ok done) h there = rw (there refl)
  document_after w v raw value (w', err e) h there = absurd (cc h)

  -- A write of a guest's document that expects the digest now there, of a text that with one newline
  -- at its end has at most 512 KiB and parses without lints, succeeds with that text and its value, if
  -- the temporary file and the document's file can be written.
  pub put_raw-succeeds :
      (w : World B) (v : ℕ) (text expected : String) (current : Option String) (value : Value N)
      → digest_of libs store w (guest v) ≡ ok current
      → or_no_digest current ≡ expected
      → libs.size (libs.bytes_of (normalize_trailing_newline text)) ≤ max_bytes
      → parse libs disk_format (normalize_trailing_newline text) ≡ ok value
      → IsWritable w (temp_path libs store (path_for libs store (guest v)) w.write_seq)
      → IsWritable w (path_for libs store (guest v))
      → (put_raw libs store w (guest v) text (some expected)).1
        ≡ ok (document_put libs store w (guest v) (normalize_trailing_newline text) value)
  unfolding put_raw put_accepted
  put_raw-succeeds w v text expected current value h same fits parsed free writable =
      rw
        (accept-ok w (guest v) (normalize_trailing_newline text) expected current value h same fits
          parsed)
        (document_after w v (normalize_trailing_newline text) value _
          (write_atomic-ok w (path_for libs store (guest v)) _ free writable
            (guest-IsVisible libs store v))
          (written_there libs store w v _))
