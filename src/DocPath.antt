-- ===== src/DocPath.antt =====
-- crates/pve-meta-core/src/path.rs: the segment rule, and paths as lists of segments. Reading a
-- path out of a text is `DocPath.Parse`.
pub mod Parse
pub mod Segments
use Prim.Native.String
use pve_meta.Shared.{
  ℕ, Char, code, String, Bool, true, false, not, ◌&&◌, ◌||◌, Option, none, some, List, [], ◌∷◌,
  ◌++◌, is_empty, leb, ◌==◌, str_eq, if◌then◌else◌,
}
use pve_meta.Shared.Text.{join}

-- `char::is_ascii_alphanumeric`
unfoldable pub is_ascii_alphanumeric : ℕ → Bool
is_ascii_alphanumeric c =
    (leb b'0' c && leb c b'9') || (leb b'A' c && leb c b'Z') || (leb b'a' c && leb c b'z')

unfoldable pub is_segment_char : ℕ → Bool
unfolding is_ascii_alphanumeric
is_segment_char c = is_ascii_alphanumeric c || c == b'_' || c == b'-' || c == b'@' || c == b'!'

unfoldable pub invalid_char : String → Option Char
unfolding is_segment_char
invalid_char String.[] = none
invalid_char (String.◌∷◌ c s) = if not (is_segment_char (code c)) then some c else invalid_char s

abbrev is_none {ℓ} : {A : Type ℓ} → Option A → Bool
is_none none = true
is_none (some a) = false

unfoldable pub is_valid_segment : String → Bool
unfolding invalid_char
is_valid_segment s = not (str_eq s "") && is_none (invalid_char s)

pub record DocPath : Type 0 where
  pub segments : List String

abbrev pub root : DocPath
root = record { segments = [] }

unfoldable pub is_root : DocPath → Bool
is_root p = is_empty p.segments

last_of : List String → Option String
last_of [] = none
last_of (s ∷ []) = some s
last_of (s ∷ t ∷ r) = last_of (t ∷ r)

unfoldable pub last : DocPath → Option String
unfolding last_of
last p = last_of p.segments

-- `Vec::pop`, for what it leaves
pop : List String → List String
pop [] = []
pop (s ∷ []) = []
pop (s ∷ t ∷ r) = s ∷ pop (t ∷ r)

unfoldable pub parent : DocPath → Option DocPath
unfolding pop
parent p = if is_empty p.segments then none else some (record { segments = pop p.segments })

-- `Path::join`
unfoldable pub child : DocPath → String → DocPath
child p segment = record { segments = p.segments ++ segment ∷ [] }

-- the length test and the comparison of the zipped segments, in one recursion
unfoldable pub all_equal : List String → List String → Bool
all_equal [] others = true
all_equal (a ∷ as') [] = false
all_equal (a ∷ as') (b ∷ bs) = str_eq a b && all_equal as' bs

unfoldable pub is_prefix_of : DocPath → DocPath → Bool
unfolding all_equal
is_prefix_of p other = all_equal p.segments other.segments

-- `Display`
unfoldable pub display : DocPath → String
display p = join "." p.segments
