-- ===== src/Store/Listings/Own.antt =====
-- What the listings of a store make of the names of its own files, and what a purge leaves.
use pve_meta.Shared.{ℕ, ◌<◌, String, true, false, none, some, ◌≡◌, refl, sym, arith, code, Char}
use Prim.Native.String.{◌++◌ as concat}
use text.Mathlib.TextLemmas.{nil-append, cons-append}
use Prim.Native.Nat.{◌^◌}
use pve_meta.Shared.Text.{
  split_once-free, strip_prefix, rsplit_once, strip_prefix-append, contains_char,
}
use pve_meta.Shared.Decimal.{to_string, to_string-cons, to_string-free, parse_unsigned-to_string}
use pve_meta.Format.{from_ext}
use pve_meta.Store.{is_valid_snapshot_name}
use pve_meta.Store.Names.{
  concat_assoc, guest_file, snapshot_file, guest_stem, snapshot_stem, split_stem,
}
use pve_meta.Store.Listings.{
  vmid_of_file, stem_vmid, named_vmid, listed_snapshot, is_hidden, snapshot_named, snapshot_of,
}

-- The vmid that is read from the name of a guest's document, and from that of a snapshot of a valid
-- name, is that guest's, if it has 32 bits.
pub vmid_of_file-own :
    (v : ℕ) (name : String)
    → v < 2 ^ 32
    → is_valid_snapshot_name name ≡ true
    → (vmid_of_file (guest_file v) ≡ some v) × (vmid_of_file (snapshot_file v name) ≡ some v)
unfolding vmid_of_file stem_vmid named_vmid
vmid_of_file-own v name small valid = (
  rw (guest_stem v, split_once-free b'.' (to_string v) (to_string-free v b'.' (omega arith)))
      (parse_unsigned-to_string (2 ^ 32) v small),
  rw (snapshot_stem v name, split_stem v name, valid) (parse_unsigned-to_string (2 ^ 32) v small),
)

rsplit_once-free : (n : ℕ) (s : String) → contains_char n s ≡ false → rsplit_once n s ≡ none
unfolding rsplit_once contains_char
rsplit_once-free n String.[] h = refl
rsplit_once-free n (String.◌∷◌ c s) h = ground (arith, rsplit_once-free n s)

-- Splitting at the last separator gives what stands after it, if that holds none.
rsplit_once-append :
    (n : ℕ) (p s : String) (c : Char)
    → code c ≡ n
    → contains_char n s ≡ false
    → rsplit_once n (concat p (String.◌∷◌ c s)) ≡ some (p, s)
unfolding rsplit_once
rsplit_once-append n String.[] s c e h = rw (nil-append, rsplit_once-free n s h) (ground arith)
rsplit_once-append n (String.◌∷◌ d p) s c e h =
    rw cons-append (ground (arith, rsplit_once-append n p s c e h))

not_hidden : (v : ℕ) (t : String) → is_hidden (concat (to_string v) t) ≡ false
unfolding strip_prefix
not_hidden v t = let (c, u, q, low, _) = to_string-cons v in rw (q, cons-append) (ground arith)

-- A snapshot's file is listed under its name for its guest, if the name is valid.
pub listed_snapshot-own :
    (v : ℕ) (name : String)
    → is_valid_snapshot_name name ≡ true
    → listed_snapshot (concat (to_string v) ".") (snapshot_file v name) ≡ some name
unfolding listed_snapshot snapshot_named snapshot_of contains_char from_ext
listed_snapshot-own v name valid =
    let dotted : concat "." (concat name ".yaml") ≡ String.◌∷◌ "." (concat name ".yaml") =
      rw (cons-append, nil-append) in
    let own : strip_prefix (concat (to_string v) ".") (snapshot_file v name)
        ≡ some (concat name ".yaml") =
      rw (sym (concat_assoc (to_string v) "." (concat name ".yaml")))
        (strip_prefix-append (concat (to_string v) ".") (concat name ".yaml")) in
    let parts : rsplit_once b'.' (concat name ".yaml") ≡ some (name, "yaml") =
      rsplit_once-append b'.' name "yaml" "." refl refl in
    rw (not_hidden v (concat "." (concat name ".yaml")), own, parts, valid)
