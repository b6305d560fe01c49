-- ===== src/Tests/Scans.antt =====
-- The scan of YAML events on concrete documents.
use pve_meta.Shared.{false, List, [], ◌∷◌, all, ◌≡◌, refl}
use pve_meta.View.Descent.{is_ok}
use pve_meta.Format.Scan.{Marker, scan_yaml_safety}
use pve_meta.Format.Scan.Trees.Streams.{YamlDocument, stream, scan_yaml_safety-stream}
use pve_meta.Format.Scan.Trees.{
  Tree, alias_node, leaf, sequence, mapping, no_trees, more_trees, no_entries, entry, is_plain,
}

abbrev place : Marker
place = record { line = 1; col = 0 }

abbrev word : Tree
word = leaf false false place

-- `a: [b, *c]`
abbrev with_alias : Tree
with_alias = mapping false false place place (
    entry word
      (sequence false false place place (more_trees word (more_trees (alias_node place) no_trees)))
      no_entries)

-- `? {a: b} : c`
abbrev with_map_key : Tree
with_map_key =
    mapping false false place place
      (entry (mapping false false place place (entry word word no_entries)) word no_entries)

what_is_refused : (is_plain with_alias ≡ false) × (is_plain with_map_key ≡ false)
unfolding is_plain
what_is_refused = (refl, refl)

abbrev two_documents : List YamlDocument
two_documents =
    record { begins = place; ends = place; root = word }
    ∷ record { begins = place; ends = place; root = with_map_key }
    ∷ []

scan_yaml_safety-stream_example :
    is_ok (scan_yaml_safety (stream place place two_documents))
    ≡ all (λ d. is_plain d.root) two_documents
scan_yaml_safety-stream_example = scan_yaml_safety-stream place place two_documents
