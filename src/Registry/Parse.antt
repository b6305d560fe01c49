-- ===== src/Registry/Parse.antt =====
-- Parsing a prefix file (crates/pve-meta-core/src/registry.rs).
use pve_meta.Shared.{
  String, Bool, true, false, Option, none, some, List, [], ◌∷◌, str_eq, if◌then◌else◌, ◌⊎◌, inl,
  inr,
}
use pve_meta.Json.{Value}
use Prim.Native.String.{◌++◌ as concat}
use pve_meta.DocPath
use pve_meta.DocPath.{DocPath, is_root}
use pve_meta.DocPath.Parse
use pve_meta.Json.Numbers.{Numbers}
use pve_meta.Format.{yaml}
use pve_meta.Format.Texts.{Libraries, parse_raw}
use pve_meta.Error.{Error, Result, ok, err, ◌>>=◌, ◌>>◌}
use pve_meta.Registry.{
  Selector, everyone, tagged, NodeName, node_name, is_valid_file_name, cluster, NodeOverride,
  PrefixDef,
}
use pve_meta.Registry.Dialect.{bad, check_schema_dialect}

pub record RawSelector : Type 0 where
  pub everywhere : Option Bool
  pub tag : Option String

module _ (N : Type 0) where
  pub record RawNodeOverride : Type 0 where
    pub schema : Option (Value N)
    pub enforce : Option Bool
    pub hidden : Option Bool

  -- `nodes` is in the order of its keys, of which no two are the same.
  pub record RawPrefixDef : Type 0 where
    pub description : Option String
    pub selector : Option RawSelector
    pub enforce : Option Bool
    pub hidden : Option Bool
    pub schema : Option (Value N)
    pub nodes : List (String × RawNodeOverride)

selector_of : String → Option Bool → Option String → Result Selector
unfolding bad
selector_of place (some true) none = ok everyone
selector_of place none (some t) =
    if str_eq t ""
    then err (
        bad (concat place ": invalid 'selector' (exactly one of { all: true } or { tag: <name> })"))
    else ok (tagged t)
selector_of place _ _ =
    err
      (bad (concat place ": invalid 'selector' (exactly one of { all: true } or { tag: <name> })"))

unfoldable pub parse_selector : String → Option RawSelector → Result Selector
unfolding selector_of
parse_selector place none =
    err (bad (concat place ": missing 'selector' (use { all: true } or { tag: <name> })"))
parse_selector place (some raw) = selector_of place raw.everywhere raw.tag

-- `map_err`
unfoldable pub or_error {ℓ} : {A : Type ℓ} → Error → Result A → Result A
or_error e (ok a) = ok a
or_error e (err x) = err e

or_false : Option Bool → Bool
or_false none = false
or_false (some b) = b

prefix_of : String → Result DocPath → Result DocPath
prefix_of name parsed = do
  prefix ← or_error (bad (concat name ": file name is not a valid prefix")) parsed
  if is_root prefix then err (bad (concat name ": file name is not a valid prefix")) else ok prefix

-- what `serde_json::from_value` answers
decoded : {A : Type 0} → String → String ⊎ A → Result A
decoded name (inl msg) = err (bad (concat name (concat ": " msg)))
decoded name (inr raw) = ok raw

-- `decode` is the decoding of a value that the derive of the raw types generates: the raw prefix, or
-- the message of what is wrong with the value.
module _ {N F B : Type 0} (numbers : Numbers N F) (libs : Libraries N B)
    (decode : Value N → String ⊎ RawPrefixDef N) where
  check_schema : String → String → Option (Value N) → Result (Unit {0})
  check_schema name place none = ok tt
  check_schema name place (some schema) = check_schema_dialect numbers name place schema

  parse_nodes :
      String → List (String × RawNodeOverride N) → Result (List (NodeName × NodeOverride N))
  unfolding check_schema
  parse_nodes name [] = ok []
  parse_nodes name ((key, over) ∷ nodes) =
      let others = parse_nodes name nodes in
      do
        n ←
            or_error (bad (concat name (concat ": nodes." (concat key ": not a valid node name"))))
              (node_name key)
        check_schema name (concat "nodes." (concat key ".schema")) over.schema
        rest ← others
        ok (
            (n, record { schema = over.schema; enforce = over.enforce; hidden = over.hidden })
            ∷ rest)

  unfoldable pub parse_prefix : String → String → Result (PrefixDef N)
  unfolding prefix_of decoded check_schema parse_nodes or_false
  parse_prefix name text = do
    (if is_valid_file_name name
        then ok tt
        else err (bad (concat name ": file name is not a valid prefix")))
    prefix ← prefix_of name (DocPath.Parse.parse name)
    value ← parse_raw libs yaml text
    raw ← decoded name (decode value)
    selector ← parse_selector name raw.selector
    check_schema name "schema" raw.schema
    nodes ← parse_nodes name raw.nodes
    ok (record {
      prefix = prefix;
      description = raw.description;
      selector = selector;
      schema = raw.schema;
      enforce = or_false raw.enforce;
      hidden = or_false raw.hidden;
      nodes = nodes;
      origin = cluster;
      overrides = false;
    })
