-- ===== src/Tests/Prefixes.antt =====
-- The registry of prefixes on concrete directories and prefixes.
use pve_meta.Shared.{
  ℕ, String, Bool, true, false, not, none, some, List, [], ◌∷◌, str_eq, ◌≡◌, ◌↔◌, refl,
}
use mathlib.Core.List.{Memᴰ}
use pve_meta.Registry.{
  PrefixDef, NodeName, Selector, everyone, tagged, packaged, resolve_for_node, is_valid_file_name,
  is_node_name,
}
use pve_meta.Shared.Text.{split}
use pve_meta.Registry.Files.{
  find, reverse, enumerate, effective_file, cluster_file_written, cluster_layers, origin_at,
  write_dir,
}
use pve_meta.Registry.Listing.{prefixes_for_guest}
use pve_meta.Registry.Rows.{prefixes_for_guest_rows, IsRowOf}
use pve_meta.Tests.Views.{at}

-- The directories are their names, and the file is there in all but the one called "empty".
abbrev is_there : String → String → Bool
is_there dir file = not (str_eq dir "empty")

abbrev dirs : List String
dirs = "packaged" ∷ "cluster" ∷ "empty" ∷ []

cluster_file_written_example : write_dir {D = String} ("packaged" ∷ "cluster" ∷ []) ≡ some "cluster"
unfolding effective_file find reverse enumerate origin_at cluster_layers
cluster_file_written_example =
    cluster_file_written is_there ("packaged" ∷ "cluster" ∷ []) "traefik" (1, "cluster") refl refl

abbrev plain_def : List String → Selector → PrefixDef ℕ
plain_def segments selector = record {
  prefix = at segments;
  description = none;
  schema = none;
  enforce = false;
  hidden = false;
  selector = selector;
  nodes =
      (record { text = "pve1" }, record { schema = none; enforce = some true; hidden = none }) ∷ [];
  origin = packaged;
  overrides = false;
}

abbrev pub loaded : List (PrefixDef ℕ)
loaded =
    plain_def ("home" ∷ []) everyone
    ∷ plain_def ("traefik" ∷ []) (tagged "traefik")
    ∷ plain_def ("home" ∷ "docker" ∷ []) everyone
    ∷ []

abbrev pve1 : NodeName
pve1 = record { text = "pve1" }

a_node_overrides : (resolve_for_node (plain_def ("home" ∷ []) everyone) (some pve1)).enforce ≡ true
unfolding resolve_for_node
a_node_overrides = refl

names_of_files_and_nodes :
    (is_valid_file_name "homelab.docker" ≡ true)
    × (is_valid_file_name "a..b" ≡ false)
    × (is_node_name "pve-1" ≡ true)
    × (is_node_name "pve-" ≡ false)
unfolding is_valid_file_name is_node_name split
names_of_files_and_nodes = (refl, refl, refl, refl)

abbrev traefik_row : PrefixDef ℕ
traefik_row = resolve_for_node (plain_def ("traefik" ∷ []) (tagged "traefik")) (some pve1)

prefixes_for_guest_rows_example :
    Memᴰ traefik_row (prefixes_for_guest loaded (some pve1) ("web" ∷ "traefik" ∷ []))
    ↔ IsRowOf loaded (some pve1) ("web" ∷ "traefik" ∷ []) traefik_row
prefixes_for_guest_rows_example =
    prefixes_for_guest_rows loaded (some pve1) ("web" ∷ "traefik" ∷ []) traefik_row
