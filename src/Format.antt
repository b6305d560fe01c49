-- ===== src/Format.antt =====
-- crates/pve-meta-core/src/format.rs: the two text formats. Parsing and dumping a text are the
-- libraries `serde_yaml_ng` and `serde_json`, and parameters of what uses them.
pub mod Scan
pub mod Texts
use pve_meta.Shared.{String, Option, none, some, ◌||◌, ◌≡◌, refl, if◌then◌else◌}
use pve_meta.Shared.Text.{lowercase_codes, has_codes}

pub data Format : Type 0 where
  yaml json : Format

unfoldable pub ext : Format → String
ext yaml = "yaml"
ext json = "json"

unfoldable pub from_ext : String → Option Format
unfolding lowercase_codes has_codes
from_ext text =
    let lower = lowercase_codes text in
    if has_codes lower "yaml" || has_codes lower "yml"
    then some yaml
    else if has_codes lower "json"
    then some json
    else none

from_ext_any_case :
    (from_ext "YmL" ≡ some yaml) × (from_ext "JSON" ≡ some json) × (from_ext "toml" ≡ none)
unfolding from_ext
from_ext_any_case = (refl, refl, refl)
