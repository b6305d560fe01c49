-- ===== src/Store/Accepted.antt =====
-- What holds of the document that a write of store.rs gives back.
use pve_meta.Shared.{ℕ, ◌≤◌, String, Option, [], ◌≡◌, refl}
use pve_meta.DocId.{guest}
use pve_meta.Error.{ok}
use pve_meta.Format.Texts.{Libraries, normalize_trailing_newline, parse_raw}
use pve_meta.Model.{lint}
use pve_meta.Store.{MetaStore, World, Document, disk_format, max_bytes, digest_of}
use pve_meta.Store.Ops.{put_raw}
use pve_meta.Store.Contents.{IsExpected, check_digest-IsExpected, accepted, put_raw-ok}
use pve_meta.Store.Visible.{parse-parse_raw}

module _ {N B : Type 0} (libs : Libraries N B) (store : MetaStore) where
  -- A write of a guest's document that succeeds found the digest that it expects, if it expects one,
  -- the empty one standing for a missing document; and it gives back a document of the guest with the
  -- text and one newline at its end, of at most 512 KiB, with the value that the text parses into,
  -- which passes the lint, and with the digest of the text.
  pub put_raw-IsAccepted :
      (w : World B) (v : ℕ) (text : String) (expected : Option String) (d : Document N)
      → (put_raw libs store w (guest v) text expected).1 ≡ ok d
      → ((current : Option String) × (digest_of libs store w (guest v) ≡ ok current)
          × IsExpected expected current)
        × (d.id ≡ guest v)
        × (d.raw ≡ normalize_trailing_newline text)
        × (libs.size (libs.bytes_of d.raw) ≤ max_bytes)
        × (parse_raw libs disk_format d.raw ≡ ok d.value)
        × (lint d.value ≡ [])
        × (d.digest ≡ libs.sha256 (libs.bytes_of d.raw))
  put_raw-IsAccepted w v text expected d h =
      let (value, acceptance, _, same) = put_raw-ok libs store w v text expected d h in
      let (current, found, matched, fits, parsed) =
        accepted libs store w (guest v) (normalize_trailing_newline text) expected value
          acceptance in
      let (parsed_raw, clean) = parse-parse_raw libs store _ value parsed in
      rw same (
        (current, found, check_digest-IsExpected current expected matched),
        refl,
        refl,
        fits,
        parsed_raw,
        clean,
        refl,
      )
