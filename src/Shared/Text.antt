-- ===== src/Shared/Text.antt =====
-- What the program uses of Rust's `str`, over the characters of a text: `contains`, `split` at a
-- character, `join`, `ends_with`, `strip_suffix` and `strip_prefix`.
use Prim.Native.Nat.{suc, ℕ, ◌+◌}
use Prim.Native.Char.{Char, code}
use Prim.Native.String.{String, [], ◌∷◌, ◌++◌}
use mathlib.Core.Logic.{inl, inr}
use text.Mathlib.TextPositions.{eq_refl}
use mathlib.Core.Path.{◌≡◌, refl, ap}
use mathlib.Core.Bool.{Bool, true, false, ◌&&◌, ◌||◌}
use mathlib.Core.Option.{Option, none, some}
use mathlib.Core.List.{List}
use native.Mathlib.Omega.{arith}
use text.Mathlib.Text.{◌==◌ as str_eq}
use text.Mathlib.TextEquality.{eq_iff}
use text.Mathlib.TextLemmas.{nil-append, cons-append, cons-ne-nil}
use pve_meta.Shared.Tests.{Bool-cases, is_some, ◌==◌, leb, if◌then◌else◌}
use pve_meta.Shared.Lists.{All}

-- `s.contains(c)` for a character
unfoldable pub contains_char : ℕ → String → Bool
contains_char n [] = false
contains_char n (c ∷ s) = code c == n || contains_char n s

-- `s.strip_prefix(c).unwrap_or(s)` for a character
unfoldable pub strip_prefix_char : ℕ → String → String
strip_prefix_char n [] = []
strip_prefix_char n (c ∷ s) = if code c == n then s else c ∷ s

-- `s.ends_with(suffix)`
unfoldable pub ends_with : String → String → Bool
ends_with suffix [] = str_eq [] suffix
ends_with suffix (c ∷ s) = str_eq (c ∷ s) suffix || ends_with suffix s

abbrev push_char : Char → Option String → Option String
push_char c none = none
push_char c (some s) = some (c ∷ s)

-- `s.strip_suffix(suffix)`
unfoldable pub strip_suffix : String → String → Option String
strip_suffix suffix [] = if str_eq [] suffix then some [] else none
strip_suffix suffix (c ∷ s) =
    if str_eq (c ∷ s) suffix then some [] else push_char c (strip_suffix suffix s)

abbrev push_front : Char → List String → List String
push_front c List.[] = List.[]
push_front c (List.◌∷◌ p ps) = List.◌∷◌ (c ∷ p) ps

-- `s.split(c)` for a character: one part more than there are separators
unfoldable pub split : ℕ → String → List String
split n [] = List.◌∷◌ [] List.[]
split n (c ∷ s) =
    let rest = split n s in if code c == n then List.◌∷◌ [] rest else push_front c rest

-- `s.split_once(c)` for a character: the text before the first one, and the text after it
unfoldable pub split_once : ℕ → String → Option (String × String)
split_once n [] = none
split_once n (c ∷ s) =
    let rest = split_once n s in
    if code c == n
    then some ([], s)
    else elim rest [ none ↦ none | some (head, tail) ↦ some (c ∷ head, tail) ]

-- `parts.join(sep)`
unfoldable pub join : String → List String → String
join sep List.[] = []
join sep (List.◌∷◌ p List.[]) = p
join sep (List.◌∷◌ p (List.◌∷◌ q ps)) = p ++ (sep ++ join sep (List.◌∷◌ q ps))

abbrev pub IsFree : ℕ → String → Type 0
IsFree n s = contains_char n s ≡ false

split-free : (n : ℕ) (s : String) → IsFree n s → split n s ≡ List.◌∷◌ s List.[]
unfolding split contains_char
split-free n [] h = refl
split-free n (c ∷ s) h = ground (arith, split-free n s)

split-append :
    (n : ℕ) (p : String) (c : Char) (s : String)
    → IsFree n p
    → code c ≡ n
    → split n (p ++ (c ∷ s)) ≡ List.◌∷◌ p (split n s)
unfolding split contains_char
split-append n [] c s h e = rw nil-append (ground arith)
split-append n (d ∷ p) c s h e = rw cons-append (ground (arith, split-append n p c s))

-- Splitting what was joined gives the parts back, if no part holds the separator.
pub split-join :
    (n : ℕ) (c : Char) (p : String) (ps : List String)
    → code c ≡ n
    → All (IsFree n) (List.◌∷◌ p ps)
    → split n (join (c ∷ []) (List.◌∷◌ p ps)) ≡ List.◌∷◌ p ps
unfolding join
split-join n c p List.[] e (h, _) = split-free n p h
split-join n c p (List.◌∷◌ q ps) e (h, hs) = rw cons-append (
    rw nil-append (
      rw (split-append n p c (join (c ∷ []) (List.◌∷◌ q ps)) h e)
        (ap (List.◌∷◌ p) (split-join n c q ps e hs))))

-- `s.to_ascii_lowercase()`, as the codes of its characters
unfoldable pub lowercase_codes : String → List ℕ
lowercase_codes [] = List.[]
lowercase_codes (c ∷ s) =
    let n = code c in List.◌∷◌ (if leb b'A' n && leb n b'Z' then n + 32 else n) (lowercase_codes s)

-- the comparison of such a text with a literal
unfoldable pub has_codes : List ℕ → String → Bool
has_codes List.[] [] = true
has_codes List.[] (c ∷ s) = false
has_codes (List.◌∷◌ n ns) [] = false
has_codes (List.◌∷◌ n ns) (c ∷ s) = n == code c && has_codes ns s

pub str_eq-cons-nil : (c : Char) (s : String) → str_eq (c ∷ s) "" ≡ false
str_eq-cons-nil c s = ground (arith, eq_iff (c ∷ s) [], cons-ne-nil c s)

pub contains_char-append :
    (n : ℕ) (s t : String) → contains_char n (s ++ t) ≡ (contains_char n s || contains_char n t)
unfolding contains_char
contains_char-append n [] t = rw nil-append
contains_char-append n (c ∷ s) t = rw cons-append (ground (arith, contains_char-append n s t))

-- A character that neither the parts nor the separator hold does not come up by joining.
pub join-IsFree :
    (n : ℕ) (sep : String) (ps : List String)
    → IsFree n sep
    → All (IsFree n) ps
    → IsFree n (join sep ps)
unfolding join contains_char
join-IsFree n sep List.[] h _ = refl
join-IsFree n sep (List.◌∷◌ p List.[]) h (k, _) = k
join-IsFree n sep (List.◌∷◌ p (List.◌∷◌ q ps)) h (k, ks) =
    rw (contains_char-append n p (sep ++ join sep (List.◌∷◌ q ps))) (
      rw (contains_char-append n sep (join sep (List.◌∷◌ q ps)))
        (ground (arith, join-IsFree n sep (List.◌∷◌ q ps) h ks)))

pub strip_prefix_char-free : (n : ℕ) (s : String) → IsFree n s → strip_prefix_char n s ≡ s
unfolding strip_prefix_char contains_char
strip_prefix_char-free n [] h = refl
strip_prefix_char-free n (c ∷ s) h = ground arith

-- `strip_suffix` answers exactly on the texts that `ends_with` accepts.
pub strip_suffix-ends_with :
    (suffix s : String) → is_some (strip_suffix suffix s) ≡ ends_with suffix s
unfolding strip_suffix ends_with
strip_suffix-ends_with suffix [] = ground arith
strip_suffix-ends_with suffix (c ∷ s) = ground (arith, strip_suffix-ends_with suffix s)

-- Splitting at the first separator gives what stands before it, if that holds none.
pub split_once-append :
    (n : ℕ) (p : String) (c : Char) (s : String)
    → IsFree n p
    → code c ≡ n
    → split_once n (p ++ (c ∷ s)) ≡ some (p, s)
unfolding split_once contains_char
split_once-append n [] c s h e = rw nil-append (ground arith)
split_once-append n (d ∷ p) c s h e = rw cons-append (ground (arith, split_once-append n p c s))

pub split_once-free : (n : ℕ) (s : String) → IsFree n s → split_once n s ≡ none
unfolding split_once contains_char
split_once-free n [] h = refl
split_once-free n (c ∷ s) h = ground (arith, split_once-free n s)

-- the number of characters
size : String → ℕ
size [] = 0
size (c ∷ s) = suc (size s)

size-append : (s t : String) → size (s ++ t) ≡ size s + size t
unfolding size
size-append [] t = rw nil-append (omega arith)
size-append (c ∷ s) t = rw cons-append (omega (arith, size-append s t))

append-ne : (c : Char) (s t : String) → str_eq (c ∷ (s ++ t)) t ≡ false
unfolding size
append-ne c s t = elim (Bool-cases (str_eq (c ∷ (s ++ t)) t)) [
  | inl same ↦
      let lengths = ap size ((eq_iff (c ∷ (s ++ t)) t).0 same) in
      absurd (omega (arith, size-append s t))
  | inr other ↦ other
]

strip_suffix_self : (suffix : String) → strip_suffix suffix suffix ≡ some []
unfolding strip_suffix
strip_suffix_self [] = refl
strip_suffix_self (c ∷ s) = rw (eq_refl (c ∷ s))

-- Stripping the suffix that was appended gives the text back.
pub strip_suffix-append : (suffix s : String) → strip_suffix suffix (s ++ suffix) ≡ some s
unfolding strip_suffix
strip_suffix-append suffix [] = rw nil-append (strip_suffix_self suffix)
strip_suffix-append suffix (c ∷ s) =
    rw cons-append (rw (append-ne c s suffix, strip_suffix-append suffix s))

-- `s.strip_prefix(prefix)`, of whose answer `s.starts_with(prefix)` is whether there is one
unfoldable pub strip_prefix : String → String → Option String
strip_prefix [] s = some s
strip_prefix (c ∷ p) [] = none
strip_prefix (c ∷ p) (d ∷ s) =
    let rest = strip_prefix p s in if code c == code d then rest else none

-- `s.rsplit_once(c)` for a character: the text before the last one, and the text after it
unfoldable pub rsplit_once : ℕ → String → Option (String × String)
rsplit_once n [] = none
rsplit_once n (c ∷ s) =
    let rest = rsplit_once n s in
    elim rest [
      | some (head, tail) ↦ some (c ∷ head, tail)
      | none ↦ if code c == n then some ([], s) else none
    ]

-- Stripping what was put before a text gives the text back.
pub strip_prefix-append : (p s : String) → strip_prefix p (p ++ s) ≡ some s
unfolding strip_prefix
strip_prefix-append [] s = rw nil-append
strip_prefix-append (c ∷ p) s = rw cons-append (ground (arith, strip_prefix-append p s))
