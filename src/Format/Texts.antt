-- ===== src/Format/Texts.antt =====
-- Reading and writing the text of a document (crates/pve-meta-core/src/format.rs), over the parsers
-- and printers of the two formats, and the other libraries that the store calls.
use pve_meta.Shared.{
  ℕ, String, ◌&&◌, Option, some, List, is_empty, str_eq, if◌then◌else◌, ◌==◌, ◌≡◌, inl, inr, refl,
  ap, Bool-cases, code,
}
use pve_meta.Json.{Value}
use pve_meta.Format.{Format, yaml, json}
use pve_meta.Error.{Error, Location, Result, ok, err, ◌>>=◌, ◌>>◌}
use pve_meta.Format.Scan.{ScanItem, scan_yaml_safety}
use pve_meta.Model.{lint}
use Prim.Native.String.{◌++◌ as concat}
use text.Mathlib.TextLemmas.{nil-append, cons-append}

-- what a parser of a text answers: a value, or its message and where it stands
pub data Parsed (A : Type 0) : Type 0 where
  parsed : A → Parsed A
  unparsed : String → Option Location → Parsed A

-- `N` stands for the numbers of documents and `B` for byte strings. `yaml_events` is what
-- `saphyr_parser` gives for a text, `from_yaml` and `from_json` are the parsers; `sha256` is the hex text of the hash, and `sha256_oversized`
-- that of the hash of the tag, the length and the time that stand for a file above the read cap;
-- `sha256_entries` is that of the hash of the entries, each as its name's length, its name and its
-- digest.
pub record Libraries (N B : Type 0) : Type 0 where
  pub bytes_of : String → B
  pub text_of : B → Option String
  pub utf8_error : B → String
  pub size : B → ℕ
  pub sha256 : B → String
  pub sha256_oversized : ℕ → ℕ → String
  pub sha256_entries : List (String × String) → String
  pub yaml_events : String → List ScanItem
  pub from_yaml : String → Parsed (Value N)
  pub from_json : String → Parsed (Value N)
  pub print_yaml : Value N → String
  pub print_json : Value N → String

-- The text of a byte string that came from a text is that text.
abbrev pub IsUtf8 : {N B : Type 0} → Libraries N B → Type 0
IsUtf8 libs = (text : String) → libs.text_of (libs.bytes_of text) ≡ some text

-- `trim_end_matches('\n')`
unfoldable pub trim_newlines : String → String
trim_newlines String.[] = ""
trim_newlines (String.◌∷◌ c s) =
    let rest = trim_newlines s in if code c == 10 && str_eq rest "" then "" else String.◌∷◌ c rest

unfoldable pub normalize_trailing_newline : String → String
unfolding trim_newlines
normalize_trailing_newline text = concat (trim_newlines text) "\n"

module _ {N B : Type 0} (libs : Libraries N B) where
  -- `map_err` of a parser's answer
  read_as : Format → Parsed (Value N) → Result (Value N)
  read_as format (parsed value) = ok value
  read_as format (unparsed msg place) = err (Error.parse format msg place)

  unfoldable pub parse_yaml : String → Result (Value N)
  unfolding read_as
  parse_yaml text = scan_yaml_safety (libs.yaml_events text) >> read_as yaml (libs.from_yaml text)

  unfoldable pub parse_raw : Format → String → Result (Value N)
  unfolding read_as parse_yaml
  parse_raw yaml text = parse_yaml text
  parse_raw json text = read_as json (libs.from_json text)

  unfoldable pub linted : Value N → Result (Value N)
  linted value =
      let lints = lint value in if is_empty lints then ok value else err (Error.lint lints)

  -- `format::parse`
  unfoldable pub parse : Format → String → Result (Value N)
  unfolding linted parse_raw
  parse format text = do value ← parse_raw format text; linted value

  unfoldable pub dump : Format → Value N → String
  unfolding normalize_trailing_newline
  dump json doc = normalize_trailing_newline (libs.print_json doc)
  dump yaml doc = normalize_trailing_newline (libs.print_yaml doc)

trim_newlines-newline : (s : String) → trim_newlines (concat s "\n") ≡ trim_newlines s
unfolding trim_newlines
trim_newlines-newline String.[] = ap trim_newlines (nil-append "\n")
trim_newlines-newline (String.◌∷◌ c s) = rw cons-append (rw (trim_newlines-newline s))

trim_newlines_idem : (s : String) → trim_newlines (trim_newlines s) ≡ trim_newlines s
unfolding trim_newlines
trim_newlines_idem String.[] = refl
trim_newlines_idem (String.◌∷◌ c s) =
    elim (Bool-cases (code c == 10 && str_eq (trim_newlines s) "")) [
      | inl blank ↦ rw blank
      | inr kept ↦ rw (kept, trim_newlines_idem s, kept)
    ]

-- A text that ends with one newline is not changed.
pub normalize_trailing_newline_idem :
    (text : String)
    → normalize_trailing_newline (normalize_trailing_newline text) ≡ normalize_trailing_newline text
unfolding normalize_trailing_newline
normalize_trailing_newline_idem text =
    rw (trim_newlines-newline (trim_newlines text), trim_newlines_idem text)

pub normalize_trailing_newline-dump :
    {N B : Type 0} (libs : Libraries N B) (doc : Value N)
    → normalize_trailing_newline (dump libs yaml doc) ≡ dump libs yaml doc
unfolding dump
normalize_trailing_newline-dump libs doc = normalize_trailing_newline_idem (libs.print_yaml doc)
