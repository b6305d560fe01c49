-- ===== src/Store/Contents.antt =====
-- What a write that succeeds has checked, and what a reader sees after it.
use pve_meta.Shared.{
  ℕ, ◌≤◌, String, true, Option, none, some, ltb, ◌≡◌, inl, inr, refl, sym, arith, Bool-cases,
  str_eq, eq_iff,
}
use pve_meta.Json.{Value}
use pve_meta.Disk.{regular, lookup, meta_node, gone_is_none}
use pve_meta.DocId.{DocId, guest}
use pve_meta.Error.{Result, ok, err, ◌>>=◌}
use pve_meta.Format.Texts.{Libraries, normalize_trailing_newline, parse}
use pve_meta.View.Descent.{is_ok}
use pve_meta.Store.{
  MetaStore, World, Document, disk_format, max_bytes, check_available, path_for, digest_of,
  check_digest, check_size, check_precondition, or_no_digest,
}
use pve_meta.Store.Ops.{write_atomic, document_written, put_accepted, accept, put_raw, modified_or}
use pve_meta.Store.Refines.{written_there}

pub bind_ok :
    {A B : Type 0} (r : Result A) (f : A → Result B) (b : B)
    → (r >>= f) ≡ ok b
    → (a : A) × (r ≡ ok a) × (f a ≡ ok b)
bind_ok (ok a) f b h = (a, refl, h)
bind_ok (err e) f b h = absurd (cc h)

pub ok_inj : {A : Type 0} (a b : A) → Result.ok a ≡ ok b → a ≡ b
ok_inj a b h = cc

-- The digest that a write expects is the one that is there; the empty one stands for a missing
-- document.
abbrev pub IsExpected : Option String → Option String → Type 0
IsExpected none current = Unit
IsExpected (some expected) none = expected ≡ ""
IsExpected (some expected) (some found) = found ≡ expected

pub check_digest-IsExpected :
    (current expected : Option String)
    → check_digest current expected ≡ ok tt
    → IsExpected expected current
unfolding check_digest or_no_digest
check_digest-IsExpected current none h = tt
check_digest-IsExpected none (some expected) h = elim (Bool-cases (str_eq "" expected)) [
  | inl same ↦ sym ((eq_iff "" expected).0 same)
  | inr other ↦ absurd (cc (rw other at h))
]
check_digest-IsExpected (some found) (some expected) h = elim (Bool-cases (str_eq found expected)) [
  | inl same ↦ (eq_iff found expected).0 same
  | inr other ↦ absurd (cc (rw other at h))
]

module _ {N B : Type 0} (libs : Libraries N B) (store : MetaStore) where
  -- what a request expects, if it expects a digest, is met by the document that is there
  abbrev pub IsMet : World B → DocId → Option String → Type 0
  IsMet w id none = Unit
  IsMet w id (some expected) =
      (current : Option String) × (digest_of libs store w id ≡ ok current)
      × IsExpected (some expected) current

  pub check_precondition-IsMet :
      (w : World B) (id : DocId) (expected : Option String)
      → check_precondition libs store w id expected ≡ ok tt
      → IsMet w id expected
  unfolding check_precondition
  check_precondition-IsMet w id none h = tt
  check_precondition-IsMet w id (some expected) h =
      let (current, found, matched) = bind_ok (digest_of libs store w id) _ tt h in
      (current, found, check_digest-IsExpected current (some expected) matched)

  check_size-bound : (n : ℕ) (u : Unit {0}) → check_size libs store n ≡ ok u → n ≤ max_bytes
  unfolding check_size
  check_size-bound n u h = elim (Bool-cases (ltb max_bytes n)) [
    | inl large ↦ absurd (cc (rw large at h))
    | inr fits ↦ ground arith
  ]

  -- If a write is accepted, then the document's digest has been found and is the expected one, if one
  -- is expected, and the text has at most 512 KiB and parses, without lints, into the value given.
  pub accepted :
      (w : World B) (id : DocId) (raw : String) (expected : Option String) (value : Value N)
      → accept libs store w id raw expected ≡ ok value
      → (current : Option String) × (digest_of libs store w id ≡ ok current)
        × (check_digest current expected ≡ ok tt)
        × (libs.size (libs.bytes_of raw) ≤ max_bytes)
        × (parse libs disk_format raw ≡ ok value)
  unfolding accept
  accepted w id raw expected value h =
      let (_, available, h₁) = bind_ok (check_available libs store w) _ value h in
      let (current, current_eq, h₂) = bind_ok (digest_of libs store w id) _ value h₁ in
      let (_, matched, h₃) = bind_ok (check_digest current expected) _ value h₂ in
      let (u, sized, parsed) =
        bind_ok (check_size libs store (libs.size (libs.bytes_of raw))) _ value h₃ in
      (current, current_eq, matched, check_size-bound _ u sized, parsed)

  -- the document that a write of a text gives back
  abbrev pub document_put : World B → DocId → String → Value N → Document N
  document_put w id raw value = record {
    id = id;
    path = path_for libs store id;
    raw = raw;
    value = value;
    parse_error = none;
    digest = libs.sha256 (libs.bytes_of raw);
    mtime = w.now;
  }

  document_written-ok :
      (w : World B) (v : ℕ) (raw : String) (value : Value N) (d : Document N)
      (answer : World B × Result (Unit {0}))
      → (is_ok answer.1 ≡ true
          → lookup (path_for libs store (guest v)) answer.0.disk
            ≡ some (regular (libs.bytes_of raw) w.now))
      → (document_written libs store (guest v) (path_for libs store (guest v)) raw value answer).1
        ≡ ok d
      → (is_ok answer.1 ≡ true) × (d ≡ document_put w (guest v) raw value)
  unfolding document_written meta_node gone_is_none modified_or
  document_written-ok w v raw value d (w', err e) there h = absurd (cc h)
  document_written-ok w v raw value d (w', ok done) there h =
      (refl, ok_inj _ _ (sym (rw (there refl) at h)))

  put_accepted-ok :
      (w : World B) (v : ℕ) (raw : String) (d : Document N) (accepted : Result (Value N))
      → (put_accepted libs store w (guest v) raw accepted).1 ≡ ok d
      → (value : Value N) × (accepted ≡ ok value)
        × (is_ok (write_atomic libs store w (path_for libs store (guest v)) (libs.bytes_of raw)).1
            ≡ true)
        × (d ≡ document_put w (guest v) raw value)
  unfolding put_accepted
  put_accepted-ok w v raw d (err e) h = absurd (cc h)
  put_accepted-ok w v raw d (ok value) h =
      let (written, same) =
        document_written-ok w v raw value d _ (written_there libs store w v (libs.bytes_of raw))
          h in
      (value, refl, written, same)

  -- A write that succeeds was accepted, and gives back the document it wrote.
  pub put_raw-ok :
      (w : World B) (v : ℕ) (text : String) (expected : Option String) (d : Document N)
      → (put_raw libs store w (guest v) text expected).1 ≡ ok d
      → (value : Value N) × (accept libs store w
            (guest v)
            (normalize_trailing_newline text)
            expected
          ≡ ok value)
        × (is_ok
              (write_atomic libs store w
                (path_for libs store (guest v))
                (libs.bytes_of (normalize_trailing_newline text))).1
            ≡ true)
        × (d ≡ document_put w (guest v) (normalize_trailing_newline text) value)
  unfolding put_raw
  put_raw-ok w v text expected d h =
      put_accepted-ok w v (normalize_trailing_newline text) d
        (accept libs store w (guest v) (normalize_trailing_newline text) expected) h
