-- ===== src/Api/Reads.antt =====
-- Reading a stored document, whatever the content of its file.
use pve_meta.Shared.{
  ℕ, String, true, Option, none, some, ltb, if◌then◌else◌, Eq, ◌≡◌, ◌⊎◌, inl, inr, refl, Bool-cases,
}
use pve_meta.Json.{Value, object, end, is_object}
use pve_meta.Json.Numbers.{Numbers}
use pve_meta.Disk.{FilePath, regular, lookup, read_node, meta_node, gone_is_none}
use pve_meta.DocId.{DocId, guest}
use pve_meta.Error.{Result, ok, err, ◌>>=◌}
use pve_meta.Format.Texts.{Libraries, parse_raw}
use pve_meta.Registry.Parse.{RawPrefixDef}
use pve_meta.Api.{ApiResult, done, Stored, read_stored, stored_of, absent, unrecoverable, by_digest}
use pve_meta.Api.Plan.{stored_at}
use pve_meta.Store.{
  MetaStore, World, disk_format, max_read_bytes, check_available, path_for, read_path_for,
  check_read_size, identify, oversized, read_document, read, or_not_found, utf8, document_of,
  digest_of,
}

-- an answer is a document with this value and digest
abbrev pub IsRead : {N : Type 0} → ApiResult (Stored N) → Value N → String → Type 0
IsRead {N} answer value digest =
    (stored : Stored N) × (answer ≡ done stored)
    × (is_object stored.value ≡ true)
    × (stored.value ≡ value)
    × (stored.digest ≡ digest)

module _ {N F B : Type 0} (numbers : Numbers N F) (libs : Libraries N B)
    (decode : Value N → String ⊎ RawPrefixDef N) (store : MetaStore) ⦃e : Eq N⦄ where
  -- The map that a text holds; the empty one, if it does not parse into a map.
  abbrev pub map_parsed : Result (Value N) → Value N
  map_parsed (ok value) = if is_object value then value else object end
  map_parsed (err reason) = object end

  abbrev pub map_in_text : Option String → Value N
  map_in_text none = object end
  map_in_text (some text) = map_parsed (parse_raw libs disk_format text)

  -- The map that the bytes of a file hold, and their digest, which over 4 MiB is of size and time;
  -- the file may be missing.
  abbrev pub map_in : Option (B × ℕ) → Value N
  map_in none = object end
  map_in (some (bytes, time)) =
      if ltb max_read_bytes (libs.size bytes) then object end else map_in_text (libs.text_of bytes)

  abbrev pub digest_in : Option (B × ℕ) → String
  digest_in none = ""
  digest_in (some (bytes, time)) =
      if ltb max_read_bytes (libs.size bytes)
      then libs.sha256_oversized (libs.size bytes) time
      else libs.sha256 bytes

  -- what the guest's path holds: no file, or one with bytes and a time
  abbrev pub Holds : World B → ℕ → Option (B × ℕ) → Type 0
  Holds w v none = lookup (path_for libs store (guest v)) w.disk ≡ none
  Holds w v (some (bytes, time)) =
      lookup (path_for libs store (guest v)) w.disk ≡ some (regular bytes time)

  parsed-IsRead :
      (id : DocId) (path : FilePath) (raw digest : String) (time : ℕ) (parsed : Result (Value N))
      → IsRead
          (done (stored_of (document_of libs store id path raw digest time parsed)))
          (map_parsed parsed)
          digest
  unfolding stored_of document_of unrecoverable
  parsed-IsRead id path raw digest time (err reason) = (_, refl, refl, refl, refl)
  parsed-IsRead id path raw digest time (ok value) = elim (Bool-cases (is_object value)) [
    | inl whole ↦ rw whole (_, refl, whole, refl, refl)
    | inr other ↦ rw other (_, refl, refl, refl, refl)
  ]

  text-IsRead :
      (id : DocId) (path : FilePath) (digest msg : String) (time : ℕ) (text : Option String)
      → IsRead
          (read_stored
            (utf8 libs store msg text >>= λ raw.
              ok (document_of libs store id path raw digest time (parse_raw libs disk_format raw)))
            (ok (some digest)))
          (map_in_text text)
          digest
  unfolding utf8 read_stored by_digest unrecoverable
  text-IsRead id path digest msg time none = (_, refl, refl, refl, refl)
  text-IsRead id path digest msg time (some raw) =
      parsed-IsRead id path raw digest time (parse_raw libs disk_format raw)

  -- If the store is available, then a guest's document is read whatever bytes its file has, and
  -- without a file: the value is the map that the bytes hold, or the empty one, and the digest is
  -- theirs, or the empty one without a file.
  pub stored_at-IsRead :
      (w : World B) (v : ℕ) (content : Option (B × ℕ))
      → check_available libs store w ≡ ok tt
      → Holds w v content
      → IsRead
          (stored_at numbers libs decode store w (guest v))
          (map_in content)
          (digest_in content)
  unfolding stored_at read read_document read_path_for meta_node read_node gone_is_none or_not_found
      digest_of identify oversized check_read_size read_stored by_digest absent unrecoverable
  stored_at-IsRead w v none available there = rw (available, there) (_, refl, refl, refl, refl)
  stored_at-IsRead w v (some (bytes, time)) available there =
      elim (Bool-cases (ltb max_read_bytes (libs.size bytes))) [
        | inl large ↦ rw (available, there, large) (_, refl, refl, refl, refl)
        | inr fits ↦
            rw (available, there, fits, there)
              (text-IsRead (guest v) (path_for libs store (guest v)) (libs.sha256 bytes)
                (libs.utf8_error bytes) time (libs.text_of bytes))
      ]
