-- ===== src/Store/Listings.antt =====
-- What store.rs finds by listing its directories: the guests with files, the files it cannot name,
-- a guest's snapshots, and the version of the store; and the removal of all of a guest's files.
pub mod Own
pub mod Purge
use pve_meta.Shared.{
  ℕ, ◌+◌, String, Bool, true, false, not, ◌||◌, Option, none, some, List, [], ◌∷◌, ◌++◌,
  if◌then◌else◌, is_some, ltb, ◌==◌,
}
use Prim.Native.String.{◌++◌ as concat}
use Prim.Native.Nat.{◌^◌}
use pve_meta.Shared.Sort.{sort_by, is_less, compare_text, then_with}
use pve_meta.Shared.Text.{strip_suffix, strip_prefix, split_once, rsplit_once}
use pve_meta.Shared.Decimal.{to_string, parse_unsigned}
use pve_meta.Disk.{Io, Meta, lookup, meta_node, read_dir, gone_is_none}
use pve_meta.DocId.{guest}
use pve_meta.Error.{Result, ok, err, ◌>>=◌, ◌>>◌}
use pve_meta.Format.{yaml, from_ext}
use pve_meta.Format.Texts.{Libraries}
use pve_meta.Store.{MetaStore, World, check_available, identify, is_valid_snapshot_name}
use pve_meta.Store.Ops.{delete, delete_snapshot}

named_vmid : Option (String × String) → String → Option ℕ
named_vmid none stem = parse_unsigned (2 ^ 32) stem
named_vmid (some (head, snap)) stem =
    if is_valid_snapshot_name snap then parse_unsigned (2 ^ 32) head else none

stem_vmid : Option String → Option ℕ
unfolding named_vmid
stem_vmid none = none
stem_vmid (some stem) = named_vmid (split_once b'.' stem) stem

-- the vmid that a file name names
unfoldable pub vmid_of_file : String → Option ℕ
unfolding stem_vmid
vmid_of_file name = stem_vmid (strip_suffix ".yaml" name)

abbrev pub is_hidden : String → Bool
is_hidden name = is_some (strip_prefix "." name)

-- the snapshot that the end of a file name, after the vmid and its dot, names
snapshot_of : Option (String × String) → Option String
snapshot_of none = none
snapshot_of (some (snap_name, extension)) = elim (from_ext extension) [
  | some yaml ↦ if is_valid_snapshot_name snap_name then some snap_name else none
  | _ ↦ none
]

snapshot_named : Option String → Option String
unfolding snapshot_of
snapshot_named none = none
snapshot_named (some rest) = snapshot_of (rsplit_once b'.' rest)

unfoldable pub listed_snapshot : String → String → Option String
unfolding snapshot_named
listed_snapshot prefix name =
    if is_hidden name then none else snapshot_named (strip_prefix prefix name)

filter_map : {A B : Type 0} → (A → Option B) → List A → List B
filter_map f [] = []
filter_map f (x ∷ xs) = let rest = filter_map f xs in elim (f x) [ none ↦ rest | some y ↦ y ∷ rest ]

-- a vmid in a sorted set of them
insert_vmid : ℕ → List ℕ → List ℕ
insert_vmid v [] = v ∷ []
insert_vmid v (u ∷ us) =
    let rest = insert_vmid v us in
    if v == u then u ∷ us else if ltb v u then v ∷ (u ∷ us) else u ∷ rest

vmid_set : List (String × Option ℕ) → List ℕ
unfolding insert_vmid
vmid_set [] = []
vmid_set ((name, none) ∷ entries) = vmid_set entries
vmid_set ((name, some v) ∷ entries) = insert_vmid v (vmid_set entries)

unnamed : String × Option ℕ → Option String
unnamed (name, none) = some name
unnamed (name, some v) = none

-- the entry of a file that is found, if it is a regular one
kept_entry : String → Option Meta → List (String × Option ℕ) → List (String × Option ℕ)
kept_entry name none rest = rest
kept_entry name (some meta) rest =
    if is_hidden name || not meta.is_file then rest else (name, vmid_of_file name) ∷ rest

pair_less : String × String → String × String → Bool
pair_less (s, d) (t, e) = is_less (then_with (compare_text s t) (compare_text d e))

abbrev pub listed : Io (List String) → Result (List String)
listed answer = do names ← gone_is_none answer; ok (elim names [ none ↦ [] | some ns ↦ ns ])

module _ {N B : Type 0} (libs : Libraries N B) (store : MetaStore) where
  unfoldable pub classified : World B → List String → Result (List (String × Option ℕ))
  unfolding kept_entry
  classified w [] = ok []
  classified w (name ∷ names) =
      let others = classified w names in
      do
        meta ←
            gone_is_none
              (meta_node libs.size (lookup (record { dir = store.root; name = name }) w.disk))
        rest ← others
        ok (kept_entry name meta rest)

  unfoldable pub classified_root : World B → Result (List (String × Option ℕ))
  unfolding classified
  classified_root w = do
    check_available libs store w
    names ← listed (read_dir store.root w.disk)
    classified w names

  unfoldable pub stored_vmids : World B → Result (List ℕ)
  unfolding vmid_set classified_root
  stored_vmids w = do entries ← classified_root w; ok (vmid_set entries)

  unfoldable pub unknown_files : World B → Result (List String)
  unfolding filter_map unnamed classified_root
  unknown_files w = do
    entries ← classified_root w
    ok (sort_by (λ s t. is_less (compare_text s t)) (filter_map unnamed entries))

  unfoldable pub list_snapshots : World B → ℕ → Result (List String)
  unfolding filter_map
  list_snapshots w vmid = do
    check_available libs store w
    names ← listed (read_dir store.root w.disk)
    ok (
        sort_by (λ s t. is_less (compare_text s t))
          (filter_map (listed_snapshot (concat (to_string vmid) ".")) names))

  -- one entry of a directory that the version is made of
  version_entry : World B → String → String → String → Result (List (String × String))
  version_entry w dir prefix name = if is_hidden name then ok [] else do
    meta ← gone_is_none (meta_node libs.size (lookup (record { dir = dir; name = name }) w.disk))
    elim meta [
      | none ↦ ok []
      | some m ↦ if not m.is_file then ok [] else do
        dig ← identify libs store w (record { dir = dir; name = name })
        ok (elim dig [ none ↦ [] | some d ↦ (concat prefix name, d) ∷ [] ])
    ]

  version_entries : World B → String → String → List String → Result (List (String × String))
  unfolding version_entry
  version_entries w dir prefix [] = ok []
  version_entries w dir prefix (name ∷ names) =
      let others = version_entries w dir prefix names in
      do entry ← version_entry w dir prefix name; rest ← others; ok (entry ++ rest)

  unfoldable pub scan_for_version : World B → String → String → Result (List (String × String))
  unfolding version_entries version_entry
  scan_for_version w dir prefix = do
    names ← listed (read_dir dir w.disk)
    version_entries w dir prefix names

  scan_dirs : World B → List String → Result (List (String × String))
  unfolding scan_for_version
  scan_dirs w [] = ok []
  scan_dirs w (dir ∷ dirs) =
      let others = scan_dirs w dirs in
      do entries ← scan_for_version w dir (concat dir "/"); rest ← others; ok (entries ++ rest)

  -- the token of `MetaStore::version`
  unfoldable pub version : World B → Result String
  unfolding scan_dirs pair_less
  version w = do
    check_available libs store w
    own ← scan_for_version w store.root ""
    prefixes ← scan_dirs w store.prefix_dirs
    ok (libs.sha256_entries (sort_by pair_less (own ++ prefixes)))

  count : Bool → ℕ
  count true = 1
  count false = 0

  added : ℕ → World B × Result ℕ → World B × Result ℕ
  added n (w, ok m) = (w, ok (n + m))
  added n (w, err e) = (w, err e)

  -- An error of the removal ends the loop.
  and_then : World B × Result Bool → (World B → World B × Result ℕ) → World B × Result ℕ
  unfolding count added
  and_then (w, err e) next = (w, err e)
  and_then (w, ok there) next = added (count there) (next w)

  unfoldable pub purge_snapshots : ℕ → List String → World B → World B × Result ℕ
  unfolding and_then
  purge_snapshots vmid [] w = (w, ok 0)
  purge_snapshots vmid (name ∷ names) w =
      and_then (delete_snapshot libs store w vmid name) (λ w'. purge_snapshots vmid names w')

  purge_listed : ℕ → Result (List String) → World B → World B × Result ℕ
  unfolding purge_snapshots
  purge_listed vmid (ok names) w = purge_snapshots vmid names w
  purge_listed vmid (err e) w = (w, err e)

  unfoldable pub purge : World B → ℕ → World B × Result ℕ
  unfolding purge_listed and_then
  purge w vmid =
      and_then (delete libs store w (guest vmid))
        (λ w'. purge_listed vmid (list_snapshots w' vmid) w')
