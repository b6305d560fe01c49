-- ===== src/Registry.antt =====
-- crates/pve-meta-core/src/registry.rs: the declared prefixes, which guests they reach, and what a
-- node changes of them. A file name is a text, and the directories and files are in Registry.Files.
pub mod Files
pub mod Listing
pub mod Rows
pub mod Dialect
pub mod Parse
use pve_meta.Shared.{
  ℕ, ◌+◌, String, Bool, true, false, not, ◌&&◌, ◌||◌, Option, none, some, List, [], ◌∷◌, any, all,
  length, str_eq, if◌then◌else◌, leb, ltb, ◌==◌, code,
}
use pve_meta.Json.{Value}
use Prim.Native.Nat.{compare, Ordering}
use Prim.Native.String
use pve_meta.DocPath
use pve_meta.DocPath.{DocPath, is_ascii_alphanumeric, is_valid_segment}
use pve_meta.Shared.Text.{split}
use pve_meta.Shared.Sort.{then_with, compare_text}
use pve_meta.Error.{Error, Result, ok, err}

pub data Selector : Type 0 where
  everyone : Selector
  tagged : String → Selector

-- `Selector::matches`
unfoldable pub matches : Selector → List String → Bool
matches everyone tags = true
matches (tagged t) tags = any (λ have. str_eq have t) tags

-- more segments first, then by name
unfoldable pub by_specificity : DocPath → DocPath → Ordering
by_specificity a b =
    then_with (compare (length b.segments) (length a.segments))
      (compare_text (DocPath.display a) (DocPath.display b))

-- A node name, which `node_name` has checked.
pub record NodeName : Type 0 where
  pub text : String

all_bytes : (ℕ → Bool) → String → Bool
all_bytes p String.[] = true
all_bytes p (String.◌∷◌ c s) = p (code c) && all_bytes p s

last_byte : ℕ → String → ℕ
last_byte n String.[] = n
last_byte n (String.◌∷◌ c s) = last_byte (code c) s

-- The test of `NodeName::new`. A byte of a character that is not ASCII is no letter, no digit and
-- no dash, and neither is such a character.
unfoldable pub is_node_name : String → Bool
unfolding is_ascii_alphanumeric all_bytes last_byte
is_node_name String.[] = false
is_node_name (String.◌∷◌ c s) =
    is_ascii_alphanumeric (code c)
    && (is_ascii_alphanumeric (last_byte (code c) s)
        && all_bytes (λ b. is_ascii_alphanumeric b || b == b'-') (String.◌∷◌ c s))

-- `NodeName::new`
unfoldable pub node_name : String → Result NodeName
unfolding is_node_name
node_name s = if is_node_name s then ok (record { text = s }) else err (Error.invalid_name s)

-- the length of a text in bytes, in UTF-8
byte_len : String → ℕ
byte_len String.[] = 0
byte_len (String.◌∷◌ c s) = utf8_len (code c) + byte_len s
  where
    utf8_len : ℕ → ℕ
    utf8_len n = if ltb n 128 then 1 else if ltb n 2048 then 2 else if ltb n 65_536 then 3 else 4

abbrev pub max_file_name_len : ℕ
max_file_name_len = 128

unfoldable pub is_valid_file_name : String → Bool
unfolding byte_len is_valid_segment
is_valid_file_name name =
    not (str_eq name "")
    && (leb (byte_len name) max_file_name_len && all is_valid_segment (split b'.' name))

pub data Origin : Type 0 where
  packaged cluster : Origin

module _ (N : Type 0) where
  pub record NodeOverride : Type 0 where
    pub schema : Option (Value N)
    pub enforce : Option Bool
    pub hidden : Option Bool

  pub record PrefixDef : Type 0 where
    pub prefix : DocPath
    pub description : Option String
    pub selector : Selector
    pub schema : Option (Value N)
    pub enforce : Bool
    pub hidden : Bool
    pub nodes : List (NodeName × NodeOverride)
    pub origin : Origin
    pub overrides : Bool

-- `if let Some(v) = over { field = v }`
replaced {ℓ} : {A : Type ℓ} → Option A → A → A
replaced none a = a
replaced (some b) a = b

some_replaced {ℓ} : {A : Type ℓ} → Option A → Option A → Option A
some_replaced none a = a
some_replaced (some b) a = some b

module _ {N : Type 0} where
  override_for : String → List (NodeName × NodeOverride N) → Option (NodeOverride N)
  override_for n [] = none
  override_for n ((m, over) ∷ nodes) = if str_eq m.text n then some over else override_for n nodes

  override_at : Option NodeName → PrefixDef N → Option (NodeOverride N)
  override_at none d = none
  override_at (some n) d = override_for n.text d.nodes

  overridden : Option (NodeOverride N) → PrefixDef N → PrefixDef N
  overridden none d = record d { nodes = [] }
  overridden (some over) d = record d {
    schema = some_replaced over.schema d.schema;
    enforce = replaced over.enforce d.enforce;
    hidden = replaced over.hidden d.hidden;
    nodes = [];
  }

  unfoldable pub resolve_for_node : PrefixDef N → Option NodeName → PrefixDef N
  unfolding override_at overridden override_for replaced some_replaced
  resolve_for_node d at_node = overridden (override_at at_node d) d
