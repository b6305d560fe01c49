-- ===== src/Store/Names.antt =====
-- The file names of documents and snapshots: no two name the same file, and none is the name of a
-- temporary file.
use pve_meta.Shared.{
  ℕ, String, Bool, true, false, ◌&&◌, Option, none, some, str_eq, eq_iff, eq_refl, ◌==◌, ◌≡◌, ◌≢◌,
  inl, inr, refl, sym, ap, ap₂, arith, Bool-cases, code,
}
use Prim.Native.String.{◌++◌ as concat}
use text.Mathlib.TextLemmas.{nil-append, cons-append}
use pve_meta.Shared.Text.{
  strip_suffix, strip_suffix-append, split_once, split_once-append, split_once-free,
}
use pve_meta.Shared.Decimal.{to_string, to_string-free, to_string-cons, to_string_inj}
use pve_meta.Disk.{same_path}
use pve_meta.DocId.{guest}
use pve_meta.Format.Texts.{Libraries}
use pve_meta.Store.{MetaStore, path_for, snapshot_path}
use pve_meta.Store.Ops.{temp_path}
use pve_meta.Store.Writes.{IsVisible}

pub concat_assoc : (a b c : String) → concat (concat a b) c ≡ concat a (concat b c)
concat_assoc String.[] b c = rw (nil-append, nil-append)
concat_assoc (String.◌∷◌ x a) b c = rw (cons-append, cons-append, cons-append, concat_assoc a b c)

-- the parts of a file name before its extension
abbrev pub name_parts : Option String → Option (Option (String × String))
name_parts none = none
name_parts (some stem) = some (split_once b'.' stem)

abbrev pub guest_file : ℕ → String
guest_file vmid = concat (to_string vmid) ".yaml"

abbrev pub snapshot_file : ℕ → String → String
snapshot_file vmid name = concat (to_string vmid) (concat "." (concat name ".yaml"))

pub guest_stem : (v : ℕ) → strip_suffix ".yaml" (guest_file v) ≡ some (to_string v)
guest_stem v = strip_suffix-append ".yaml" (to_string v)

pub snapshot_stem :
    (v : ℕ) (n : String)
    → strip_suffix ".yaml" (snapshot_file v n) ≡ some (concat (to_string v) (concat "." n))
snapshot_stem v n =
    let grouped : concat (to_string v) (concat "." (concat n ".yaml"))
        ≡ concat (concat (to_string v) (concat "." n)) ".yaml" =
      cc (
        concat_assoc (to_string v) (concat "." n) ".yaml",
        ap (concat (to_string v)) (concat_assoc "." n ".yaml"),
      ) in
    rw (grouped, strip_suffix-append ".yaml" (concat (to_string v) (concat "." n)))

pub split_stem :
    (v : ℕ) (n : String)
    → split_once b'.' (concat (to_string v) (concat "." n)) ≡ some (to_string v, n)
split_stem v n =
    let dotted : concat "." n ≡ String.◌∷◌ "." n = rw (cons-append, nil-append) in
    rw dotted
      (split_once-append b'.' (to_string v) "." n (to_string-free v b'.' (omega arith)) refl)

pub guest_parts : (v : ℕ) → name_parts (strip_suffix ".yaml" (guest_file v)) ≡ some none
guest_parts v =
    rw (strip_suffix-append ".yaml" (to_string v))
      (ap some (split_once-free b'.' (to_string v) (to_string-free v b'.' (omega arith))))

pub snapshot_parts :
    (v : ℕ) (n : String)
    → name_parts (strip_suffix ".yaml" (snapshot_file v n)) ≡ some (some (to_string v, n))
snapshot_parts v n = rw (snapshot_stem v n) (ap some (split_stem v n))

stems : (v w : ℕ) → guest_file v ≡ guest_file w → some (to_string v) ≡ some (to_string w)
stems v w h = cc (
  strip_suffix-append ".yaml" (to_string v),
  strip_suffix-append ".yaml" (to_string w),
  ap (strip_suffix ".yaml") h,
)

some_inj : {A : Type 0} {a b : A} → some a ≡ some b → a ≡ b
some_inj h = cc

pub guest_file_inj : (v w : ℕ) → guest_file v ≡ guest_file w → v ≡ w
guest_file_inj v w h = to_string_inj v w (some_inj (stems v w h))

first_part : Option (Option (String × String)) → String
first_part (some (some (head, tail))) = head
first_part _ = ""

last_part : Option (Option (String × String)) → String
last_part (some (some (head, tail))) = tail
last_part _ = ""

is_parted : Option (Option (String × String)) → Bool
is_parted (some (some (head, tail))) = true
is_parted _ = false

parts_of : String → Option (Option (String × String))
parts_of file = name_parts (strip_suffix ".yaml" file)

snapshot_parts_of :
    (v : ℕ) (n : String)
    → (first_part (parts_of (snapshot_file v n)) ≡ to_string v)
      × (last_part (parts_of (snapshot_file v n)) ≡ n)
      × (is_parted (parts_of (snapshot_file v n)) ≡ true)
unfolding parts_of first_part last_part is_parted
snapshot_parts_of v n = (rw (snapshot_parts v n), rw (snapshot_parts v n), rw (snapshot_parts v n))

guest_is_whole : (v : ℕ) → is_parted (parts_of (guest_file v)) ≡ false
unfolding parts_of is_parted
guest_is_whole v = rw (guest_parts v)

pub snapshot_file_inj :
    (v w : ℕ) (m n : String) → snapshot_file v m ≡ snapshot_file w n → (v ≡ w) × (m ≡ n)
snapshot_file_inj v w m n h =
    let (v_first, m_last, _) = snapshot_parts_of v m in
    let (w_first, n_last, _) = snapshot_parts_of w n in
    (
      to_string_inj v w (cc (v_first, w_first, ap (λ f. first_part (parts_of f)) h)),
      cc (m_last, n_last, ap (λ f. last_part (parts_of f)) h),
    )

pub guest_file-snapshot_file : (v w : ℕ) (n : String) → guest_file v ≢ snapshot_file w n
guest_file-snapshot_file v w n h =
    let (_, _, parted) = snapshot_parts_of w n in
    let distinct : false ≡ true =
      cc (guest_is_whole v, parted, ap (λ f. is_parted (parts_of f)) h) in
    absurd (cc distinct)

-- a file name that begins with a digit is no temporary file's
snapshot_file-guest_file : (v w : ℕ) (n : String) → snapshot_file w n ≢ guest_file v
snapshot_file-guest_file v w n h = guest_file-snapshot_file v w n (sym h)

guest_file_ap : (v w : ℕ) → v ≡ w → guest_file v ≡ guest_file w
guest_file_ap v w h = ap guest_file h

snapshot_file_ap : (v w : ℕ) (m n : String) → v ≡ w → m ≡ n → snapshot_file v m ≡ snapshot_file w n
snapshot_file_ap v w m n h k = ap₂ snapshot_file h k

first_code : String → ℕ
first_code String.[] = 0
first_code (String.◌∷◌ c s) = code c

first_differs : (s t : String) → first_code s ≢ first_code t → str_eq s t ≡ false
first_differs s t h = elim (Bool-cases (str_eq s t)) [
  | inl same ↦ absurd (h (ap first_code ((eq_iff s t).0 same)))
  | inr other ↦ other
]

first_code-dot : (s : String) → first_code (concat "." s) ≡ b'.'
unfolding first_code
first_code-dot s = rw cons-append refl

dot_ne : (v : ℕ) (t : String) → b'.' ≢ first_code (concat (to_string v) t)
unfolding first_code
dot_ne v t = let (c, u, q, low, _) = to_string-cons v in rw (q, cons-append) (λ h. omega arith)

digit_first : (v : ℕ) (s t : String) → str_eq (concat "." s) (concat (to_string v) t) ≡ false
digit_first v s t =
    first_differs (concat "." s) (concat (to_string v) t) (rw (first_code-dot s) (dot_ne v t))

module _ {N B : Type 0} (libs : Libraries N B) (store : MetaStore) where
  IsVisible-name :
      (v : ℕ) (t dir : String)
      → IsVisible libs store (record { dir = dir; name = concat (to_string v) t })
  unfolding same_path temp_path
  IsVisible-name v t dir path seq =
      rw
        (digit_first v
          (concat path.name (concat ".tmp." (concat store.writer (concat "." (to_string seq))))) t)
        (ground arith)

  pub guest-IsVisible : (v : ℕ) → IsVisible libs store (path_for libs store (guest v))
  unfolding path_for
  guest-IsVisible v = IsVisible-name v ".yaml" store.root

  pub snapshot-IsVisible :
      (v : ℕ) (n : String) → IsVisible libs store (snapshot_path libs store v n)
  unfolding snapshot_path
  snapshot-IsVisible v n = IsVisible-name v (concat "." (concat n ".yaml")) store.root

  pub same_path-guest :
      (v w : ℕ)
      → same_path (path_for libs store (guest v)) (path_for libs store (guest w)) ≡ (v == w)
  unfolding path_for same_path
  same_path-guest v w = ground (
    arith,
    eq_refl store.root,
    eq_iff (guest_file v) (guest_file w),
    guest_file_inj v w,
    guest_file_ap v w,
  )

  pub same_path-snapshot :
      (v w : ℕ) (m n : String)
      → same_path (snapshot_path libs store v m) (snapshot_path libs store w n)
        ≡ ((v == w) && str_eq m n)
  unfolding snapshot_path same_path
  same_path-snapshot v w m n = ground (
    arith,
    eq_refl store.root,
    eq_iff (snapshot_file v m) (snapshot_file w n),
    eq_iff m n,
    snapshot_file_inj v w m n,
    snapshot_file_ap v w m n,
  )

  pub same_path-guest_snapshot :
      (v w : ℕ) (n : String)
      → same_path (path_for libs store (guest v)) (snapshot_path libs store w n) ≡ false
  unfolding path_for snapshot_path same_path
  same_path-guest_snapshot v w n =
      ground (arith, eq_iff (guest_file v) (snapshot_file w n), guest_file-snapshot_file v w n)

  pub same_path-snapshot_guest :
      (v w : ℕ) (n : String)
      → same_path (snapshot_path libs store w n) (path_for libs store (guest v)) ≡ false
  unfolding path_for snapshot_path same_path
  same_path-snapshot_guest v w n =
      ground (arith, eq_iff (snapshot_file w n) (guest_file v), snapshot_file-guest_file v w n)
