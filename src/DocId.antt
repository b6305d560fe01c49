-- ===== src/DocId.antt =====
-- crates/pve-meta-core/src/store.rs: the id of a document, and the registry kinds of
-- crates/pve-meta-core/src/registry.rs.
use Prim.Native.String.{◌++◌}
use pve_meta.Shared.{ℕ, String}
use pve_meta.Shared.Decimal.{to_string}

pub data RegistryKind : Type 0 where
  prefix_def : RegistryKind

unfoldable pub as_str : RegistryKind → String
as_str prefix_def = "prefixes"

unfoldable pub noun : RegistryKind → String
noun prefix_def = "prefix"

pub data DocId : Type 0 where
  guest : ℕ → DocId
  registry : RegistryKind → String → DocId

-- `Display`
unfoldable pub display : DocId → String
unfolding to_string as_str
display (guest vmid) = to_string vmid
display (registry kind name) = as_str kind ++ ("/" ++ name)
