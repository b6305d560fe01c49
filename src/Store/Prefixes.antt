-- ===== src/Store/Prefixes.antt =====
-- Loading the prefix files of a store's directories (crates/pve-meta-core/src/registry.rs), and the
-- prefixes of one guest.
use pve_meta.Shared.{
  ℕ, ◌+◌, String, Bool, not, ◌||◌, Option, none, some, List, [], ◌∷◌, str_eq, if◌then◌else◌, ltb,
  ◌⊎◌, inl, inr,
}
use pve_meta.Json.{Value}
use Prim.Native.String.{◌++◌ as concat}
use pve_meta.Shared.Sort.{sort_by, is_less, compare_text}
use pve_meta.Shared.Text.{strip_suffix}
use pve_meta.Disk.{Io, Node, lookup, read_node, read_dir}
use pve_meta.Error.{Result, ok, err, display_error, ◌>>=◌}
use pve_meta.Format.Texts.{Libraries}
use pve_meta.Json.Numbers.{Numbers}
use pve_meta.DocId.{DocId, guest, registry}
use pve_meta.Registry.{NodeName, Origin, packaged, PrefixDef, is_valid_file_name}
use pve_meta.Registry.Files.{effective_file, cluster_layers, origin_at}
use pve_meta.Registry.Listing
use pve_meta.Registry.Parse.{RawPrefixDef, parse_prefix}
use pve_meta.Store.{MetaStore, World, is_present}
use pve_meta.Store.Listings.{is_hidden, listed}

pub record RegistryFailure : Type 0 where
  pub name : String
  pub origin : Origin
  pub error : String

-- a name and how many directories hold it, in a map in the order of the names
insert_holder : String → List (String × ℕ) → List (String × ℕ)
insert_holder name [] = (name, 1) ∷ []
insert_holder name ((other, n) ∷ holders) =
    let rest = insert_holder name holders in
    if str_eq name other
    then (other, n + 1) ∷ holders
    else if is_less (compare_text name other)
    then (name, 1) ∷ ((other, n) ∷ holders)
    else (other, n) ∷ rest

insert_holders : List String → List (String × ℕ) → List (String × ℕ)
unfolding insert_holder
insert_holders [] holders = holders
insert_holders (name ∷ names) holders = insert_holders names (insert_holder name holders)

or_packaged : Option Origin → Origin
or_packaged none = packaged
or_packaged (some origin) = origin

failure_row :
    {A : Type 0}
    → A ⊎ RegistryFailure
    → List A × List RegistryFailure
    → List A × List RegistryFailure
failure_row (inl a) (loaded, failures) = (a ∷ loaded, failures)
failure_row (inr f) (loaded, failures) = (loaded, f ∷ failures)

optional_row :
    {A : Type 0}
    → Option (A ⊎ RegistryFailure)
    → List A × List RegistryFailure
    → List A × List RegistryFailure
unfolding failure_row
optional_row none rows = rows
optional_row (some row) rows = failure_row row rows

module _ {N F B : Type 0} (numbers : Numbers N F) (libs : Libraries N B)
    (decode : Value N → String ⊎ RawPrefixDef N) (store : MetaStore) where
  stem_of : World B → String → String → Option String → List String → List String
  stem_of w dir name none rest = rest
  stem_of w dir name (some stem) rest =
      if not (is_valid_file_name stem) || not (is_present libs store w dir name)
      then rest
      else stem ∷ rest

  yaml_stems : World B → String → List String → List String
  unfolding stem_of
  yaml_stems w dir [] = []
  yaml_stems w dir (name ∷ names) =
      let rest = yaml_stems w dir names in
      if is_hidden name then rest else stem_of w dir name (strip_suffix ".yaml" name) rest

  unfoldable pub yaml_files : World B → String → Result (List String)
  unfolding yaml_stems stem_of
  yaml_files w dir = do
    names ← listed (read_dir dir w.disk)
    ok (sort_by (λ s t. is_less (compare_text s t)) (yaml_stems w dir names))

  holders_in : World B → List String → List (String × ℕ) → Result (List (String × ℕ))
  unfolding insert_holders
  holders_in w [] holders = ok holders
  holders_in w (dir ∷ dirs) holders = do
    names ← yaml_files w dir
    holders_in w dirs (insert_holders names holders)

  -- `fs::read_to_string`: the text, or the message of the error
  text_at : Option (Node B) → String ⊎ String
  text_at entry = elim (read_node entry) [
    | Io.done bytes ↦ elim (libs.text_of bytes) [
      | none ↦ inl "stream did not contain valid UTF-8"
      | some text ↦ inr text
    ]
    | Io.gone ↦ inl "No such file or directory (os error 2)"
    | Io.failed msg ↦ inl msg
  ]

  stamped : String → Origin → Bool → Result (PrefixDef N) → PrefixDef N ⊎ RegistryFailure
  stamped name origin overrides (ok p) = inl (record p { origin = origin; overrides = overrides })
  stamped name origin overrides (err e) =
      inr (record { name = name; origin = origin; error = display_error e })

  parsed_file : String → Origin → Bool → String ⊎ String → PrefixDef N ⊎ RegistryFailure
  unfolding stamped
  parsed_file name origin overrides (inl msg) =
      inr (record { name = name; origin = origin; error = msg })
  parsed_file name origin overrides (inr text) =
      stamped name origin overrides (parse_prefix numbers libs decode name text)

  -- the row of a name that a number of directories hold
  unfoldable pub load_name : World B → String × ℕ → Option (PrefixDef N ⊎ RegistryFailure)
  unfolding parsed_file text_at or_packaged stamped
  load_name w (name, count) =
      elim (effective_file (is_present libs store w) store.prefix_dirs name) [
        | none ↦ none
        | some (index, dir) ↦
            let origin = or_packaged (origin_at (cluster_layers store.prefix_dirs) index) in
            let entry = lookup (record { dir = dir; name = concat name ".yaml" }) w.disk in
            some (parsed_file name origin (ltb 1 count) (text_at entry))
      ]

  load_names : World B → List (String × ℕ) → List (PrefixDef N) × List RegistryFailure
  unfolding optional_row
  load_names w [] = ([], [])
  load_names w (holder ∷ holders) = optional_row (load_name w holder) (load_names w holders)

  unfoldable pub load_dirs : World B → Result (List (PrefixDef N) × List RegistryFailure)
  unfolding holders_in load_names insert_holders insert_holder optional_row failure_row
  load_dirs w = do holders ← holders_in w store.prefix_dirs []; ok (load_names w holders)

  -- `prefixes_with_failures`, and `Registry::list_prefixes`
  unfoldable pub prefixes_with_failures :
      World B → Result (List (PrefixDef N) × List RegistryFailure)
  prefixes_with_failures w = do rows ← load_dirs w; ok (Listing.list_prefixes rows.0, rows.1)

  -- `Registry::prefixes_for_guest`
  unfoldable pub prefixes_for_guest :
      World B → Option NodeName → List String → Result (List (PrefixDef N) × List RegistryFailure)
  prefixes_for_guest w at_node tags = do
    rows ← load_dirs w
    ok (Listing.prefixes_for_guest rows.0 at_node tags, rows.1)

  -- `effective_prefixes` of api.rs
  unfoldable pub effective_prefixes :
      World B → DocId → Option NodeName → List String → Result (List (PrefixDef N))
  effective_prefixes w (guest vmid) at_node tags = do
    rows ← prefixes_for_guest w at_node tags
    ok rows.0
  effective_prefixes w (registry kind name) at_node tags = ok []
