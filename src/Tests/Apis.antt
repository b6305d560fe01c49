-- ===== src/Tests/Apis.antt =====
-- The API layer on concrete requests.
use pve_meta.Shared.{ℕ, String, none, some, ◌≡◌, refl}
use pve_meta.DocId.{guest, registry, prefix_def}
use pve_meta.DocPath.{is_valid_segment}
use pve_meta.Error.{Error}
use pve_meta.Registry.{is_valid_file_name}
use pve_meta.Shared.Text.{split}
use pve_meta.Shared.Decimal.{parse_unsigned, to_string}
use pve_meta.Api.{done, parse_id, api_error}
use pve_meta.Api.Plan.{stored_at}
use pve_meta.Api.Reads.{IsRead, map_in, digest_in, stored_at-IsRead}
use pve_meta.Format.Texts.{Libraries}
use pve_meta.Disk.{lookup, same_path}
use pve_meta.Store.{check_available, path_for}
use pve_meta.Tests.Stores.{toy, at_m, stored_world}
use pve_meta.Tests.Writes.{no_prefix_file}
use pve_meta.Tests.Numbers.{nat_eq}
use pve_meta.Tests.Shapes.{nat_numbers}

ids_of_guests_and_prefixes :
    (parse_id "105" ≡ done (guest 105))
    × (parse_id "prefixes/homelab.docker" ≡ done (registry prefix_def "homelab.docker"))
unfolding parse_id parse_unsigned is_valid_file_name split is_valid_segment
ids_of_guests_and_prefixes = (refl, refl)

a_missing_document_is_404 : (api_error (Error.not_found (guest 105))).status ≡ 404
unfolding api_error
a_missing_document_is_404 = refl

-- A library to which no bytes are a text.
abbrev toy_without_text : Libraries ℕ String
toy_without_text = record toy { text_of = λ bytes. none }

stored_at-IsRead_example :
    IsRead
      (stored_at nat_numbers toy_without_text no_prefix_file at_m stored_world (guest 105))
      (map_in nat_numbers toy_without_text no_prefix_file at_m (some ("a: 1\n", 3)))
      (digest_in nat_numbers toy_without_text no_prefix_file at_m (some ("a: 1\n", 3)))
unfolding check_available path_for lookup same_path to_string
stored_at-IsRead_example =
    stored_at-IsRead nat_numbers toy_without_text no_prefix_file at_m stored_world 105
      (some ("a: 1\n", 3)) refl refl
