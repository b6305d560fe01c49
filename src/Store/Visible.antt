-- ===== src/Store/Visible.antt =====
-- What a reader sees after a write that succeeds, and what a second writer meets.
use pve_meta.Shared.{
  ℕ, ◌≤◌, String, true, false, Option, none, some, List, [], ◌∷◌, is_empty, str_eq, eq_iff, ltb,
  ◌≡◌, ◌≢◌, inl, inr, refl, sym, ap, ◌∙◌, arith, Bool-cases,
}
use pve_meta.Json.{Value}
use pve_meta.Disk.{FilePath, regular, lookup, read_node, meta_node, gone_is_none}
use pve_meta.DocId.{DocId, guest}
use pve_meta.Error.{Error, Result, ok, err}
use pve_meta.Format.Texts.{Libraries, IsUtf8, normalize_trailing_newline, parse, parse_raw, linted}
use pve_meta.Model.{lint}
use pve_meta.Store.{
  MetaStore, World, Document, disk_format, max_bytes, max_read_bytes, check_available, path_for,
  read_path_for, digest_of, check_digest, or_no_digest, check_read_size, identify, oversized,
  read_document, read, or_not_found, utf8, document_of,
}
use pve_meta.Store.Ops.{write_atomic, document_written, put_accepted, accept, put_raw}
use pve_meta.Store.Refines.{written_there}
use pve_meta.Store.Contents.{bind_ok, ok_inj, accepted, put_raw-ok}

module _ {N B : Type 0} (libs : Libraries N B) (store : MetaStore) where
  marker-write_atomic :
      (w : World B) (path : FilePath) (bytes : B)
      → (write_atomic libs store w path bytes).0.marker_is_link ≡ w.marker_is_link
  unfolding write_atomic
  marker-write_atomic w path bytes = refl

  world-document_written :
      (id : DocId) (path : FilePath) (raw : String) (value : Value N)
      (answer : World B × Result (Unit {0}))
      → (document_written libs store id path raw value answer).0 ≡ answer.0
  unfolding document_written
  world-document_written id path raw value (w, ok done) = refl
  world-document_written id path raw value (w, err e) = refl

  check_available-marker :
      (w w' : World B)
      → w'.marker_is_link ≡ w.marker_is_link
      → check_available libs store w' ≡ check_available libs store w
  unfolding check_available
  check_available-marker w w' h = rw h refl

  pub available_of_digest :
      (w : World B) (id : DocId) (current : Option String)
      → digest_of libs store w id ≡ ok current
      → check_available libs store w ≡ ok tt
  unfolding digest_of
  available_of_digest w id current h =
      let (u, available, _) = bind_ok (check_available libs store w) _ current h in available

  -- the world after a write that succeeds
  world_put :
      (w : World B) (v : ℕ) (text : String) (expected : Option String) (value : Value N)
      → accept libs store w (guest v) (normalize_trailing_newline text) expected ≡ ok value
      → (put_raw libs store w (guest v) text expected).0
        ≡ (write_atomic libs store w
            (path_for libs store (guest v))
            (libs.bytes_of (normalize_trailing_newline text))).0
  unfolding put_raw put_accepted
  world_put w v text expected value h = rw h (world-document_written _ _ _ value _)

  -- what a world holds for a guest document after a write that succeeds
  pub put_holds :
      (w : World B) (v : ℕ) (text : String) (expected : Option String) (d : Document N)
      → (put_raw libs store w (guest v) text expected).1 ≡ ok d
      → (lookup
            (path_for libs store (guest v))
            (put_raw libs store w (guest v) text expected).0.disk
          ≡ some (regular (libs.bytes_of (normalize_trailing_newline text)) w.now))
        × (check_available libs store (put_raw libs store w (guest v) text expected).0 ≡ ok tt)
  put_holds w v text expected d h =
      let (value, acceptance, written, _) = put_raw-ok libs store w v text expected d h in
      let (current, current_eq, _, _, _) =
        accepted libs store w (guest v) (normalize_trailing_newline text) expected value
          acceptance in
      let world = world_put w v text expected value acceptance in
      (
        rw world (
            written_there libs store w v (libs.bytes_of (normalize_trailing_newline text)) written),
        rw world (
            check_available-marker w _ (marker-write_atomic w _ _)
            ∙ available_of_digest w (guest v) current current_eq),
      )

  nothing_in : {A : Type 0} (xs : List A) → is_empty xs ≡ true → xs ≡ []
  nothing_in [] h = refl
  nothing_in (x ∷ xs) h = absurd (cc h)

  linted_ok :
      (parsed value : Value N)
      → linted libs parsed ≡ ok value
      → (parsed ≡ value) × (lint value ≡ [])
  unfolding linted
  linted_ok parsed value h = elim (Bool-cases (is_empty (lint parsed))) [
    | inl clean ↦
        let same = ok_inj _ _ (rw clean at h) in
        (same, rw (← same) (nothing_in (lint parsed) clean))
    | inr linted ↦ absurd (cc (rw linted at h))
  ]

  pub parse-parse_raw :
      (raw : String) (value : Value N)
      → parse libs disk_format raw ≡ ok value
      → (parse_raw libs disk_format raw ≡ ok value) × (lint value ≡ [])
  unfolding parse
  parse-parse_raw raw value h =
      let (parsed, parsed_eq, lints) = bind_ok (parse_raw libs disk_format raw) _ value h in
      let (same, clean) = linted_ok parsed value lints in (parsed_eq ∙ ap Result.ok same, clean)

  check_read_size-ok : (n : ℕ) → n ≤ max_bytes → check_read_size libs store n ≡ ok tt
  unfolding check_read_size
  check_read_size-ok n h = ground arith

  read_holding :
      (w : World B) (v : ℕ) (raw : String) (value : Value N) (time : ℕ)
      → IsUtf8 libs
      → lookup (path_for libs store (guest v)) w.disk ≡ some (regular (libs.bytes_of raw) time)
      → check_available libs store w ≡ ok tt
      → libs.size (libs.bytes_of raw) ≤ max_bytes
      → parse_raw libs disk_format raw ≡ ok value
      → read libs store w (guest v)
        ≡ ok (record {
          id = guest v;
          path = path_for libs store (guest v);
          raw = raw;
          value = value;
          parse_error = none;
          digest = libs.sha256 (libs.bytes_of raw);
          mtime = time;
        })
  unfolding read read_document read_path_for meta_node read_node gone_is_none or_not_found utf8
      document_of
  read_holding w v raw value time is_utf8 there available fits parsed = rw (
    available,
    there,
    check_read_size-ok (libs.size (libs.bytes_of raw)) fits,
    is_utf8 raw,
    parsed,
  )

  digest_holding :
      (w : World B) (v : ℕ) (bytes : B) (time : ℕ)
      → lookup (path_for libs store (guest v)) w.disk ≡ some (regular bytes time)
      → check_available libs store w ≡ ok tt
      → libs.size bytes ≤ max_bytes
      → digest_of libs store w (guest v) ≡ ok (some (libs.sha256 bytes))
  unfolding digest_of identify oversized read_path_for meta_node read_node gone_is_none
  digest_holding w v bytes time there available fits =
      let small : ltb max_read_bytes (libs.size bytes) ≡ false = ground arith in
      rw (available, there, small, there)

  -- After a write of a guest's document that succeeds, a read gives exactly the document that the
  -- write gave back, if the bytes of a text are read back as that text.
  pub read-put_raw :
      (w : World B) (v : ℕ) (text : String) (expected : Option String) (d : Document N)
      → IsUtf8 libs
      → (put_raw libs store w (guest v) text expected).1 ≡ ok d
      → read libs store (put_raw libs store w (guest v) text expected).0 (guest v) ≡ ok d
  read-put_raw w v text expected d is_utf8 h =
      let (value, acceptance, _, same) = put_raw-ok libs store w v text expected d h in
      let (_, _, _, fits, parsed) =
        accepted libs store w (guest v) (normalize_trailing_newline text) expected value
          acceptance in
      let (there, available) = put_holds w v text expected d h in
      read_holding _ v (normalize_trailing_newline text) value w.now is_utf8 there available fits
        (parse-parse_raw _ value parsed).0
      ∙ ap Result.ok (sym same)

  -- After a write of a guest's document that succeeds, the digest that later writes are checked
  -- against is the one of the document that the write gave back.
  pub digest_of-put_raw :
      (w : World B) (v : ℕ) (text : String) (expected : Option String) (d : Document N)
      → (put_raw libs store w (guest v) text expected).1 ≡ ok d
      → digest_of libs store (put_raw libs store w (guest v) text expected).0 (guest v)
        ≡ ok (some d.digest)
  digest_of-put_raw w v text expected d h =
      let (value, acceptance, _, same) = put_raw-ok libs store w v text expected d h in
      let (_, _, _, fits, _) =
        accepted libs store w (guest v) (normalize_trailing_newline text) expected value
          acceptance in
      let (there, available) = put_holds w v text expected d h in
      digest_holding _ v _ w.now there available fits
      ∙ ap (λ d. Result.ok (some d.digest)) (sym same)

  differs : (s t : String) → s ≢ t → str_eq s t ≡ false
  differs s t h = ground (arith, eq_iff s t)

  -- If a document's digest is found, a write that expects another one, the empty one standing for a
  -- missing document, is refused with both, and changes nothing.
  pub put_raw-refused :
      (w : World B) (id : DocId) (text expected : String) (current : Option String)
      → digest_of libs store w id ≡ ok current
      → or_no_digest current ≢ expected
      → put_raw libs store w id text (some expected)
        ≡ (w, err (Error.digest_mismatch expected (or_no_digest current)))
  unfolding put_raw put_accepted accept check_digest
  put_raw-refused w id text expected current h other =
      rw (available_of_digest w id current h, h, differs (or_no_digest current) expected other)

  -- Two writers of a guest's document that both saw the digest `seen`: once the first one's write has
  -- succeeded with another digest, the second one's is refused with the digest now there, and changes
  -- nothing.
  pub put_raw-stale :
      (w : World B) (v : ℕ) (first second seen : String) (d : Document N)
      → (put_raw libs store w (guest v) first (some seen)).1 ≡ ok d
      → d.digest ≢ seen
      → put_raw libs store
          (put_raw libs store w (guest v) first (some seen)).0
          (guest v)
          second
          (some seen)
        ≡ (
          (put_raw libs store w (guest v) first (some seen)).0,
          err (Error.digest_mismatch seen d.digest),
        )
  unfolding or_no_digest
  put_raw-stale w v first second seen d h other =
      put_raw-refused _ (guest v) second seen (some d.digest)
        (digest_of-put_raw w v first (some seen) d h) other
