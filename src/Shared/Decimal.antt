-- ===== src/Shared/Decimal.antt =====
-- The texts of numbers: `to_string` and `parse` of unsigned integers, which undo each other.
use Prim.Native.Nat.{ℕ, zero, suc, ◌+◌, ◌-◌, ◌*◌, ◌/◌, ◌%◌, ◌^◌, ◌<◌, ◌≤◌}
use Prim.Native.Char.{Char, code}
use Prim.Native.String.{String, [], ◌∷◌}
use mathlib.Core.Path.{ap, ◌≡◌, refl, ◌∙◌}
use mathlib.Core.Logic.{inl, inr}
use mathlib.Core.Bool.{false, ◌&&◌}
use mathlib.Core.Option.{Option, none, some}
use native.Mathlib.Omega.{arith}
use text.Mathlib.Text.{◌==◌ as str_eq}
use pve_meta.Shared.Tests.{◌==◌, leb, ltb, if◌then◌else◌, Bool-cases}
use pve_meta.Shared.Text.{contains_char}

digit : ℕ → Char
digit d =
    if d == 0
    then "0"
    else if d == 1
    then "1"
    else if d == 2
    then "2"
    else if d == 3
    then "3"
    else if d == 4
    then "4"
    else if d == 5
    then "5"
    else if d == 6
    then "6"
    else if d == 7
    then "7"
    else if d == 8
    then "8"
    else "9"

-- The digits of `n` before `rest`, on fuel: a number has at most as many digits as it has units
-- and one more.
decimal : ℕ → ℕ → String → String
unfolding digit
decimal zero n rest = rest
decimal (suc f) n rest =
    let more = decimal f (n / 10) (digit (n % 10) ∷ rest) in
    if ltb n 10 then digit n ∷ rest else more

-- `to_string` of an unsigned integer
unfoldable pub to_string : ℕ → String
unfolding decimal
to_string n = decimal (suc n) n []

digits_value : ℕ → String → Option ℕ
digits_value n [] = some n
digits_value n (c ∷ s) =
    let rest = digits_value (n * 10 + (code c - b'0')) s in
    if leb b'0' (code c) && leb (code c) b'9' then rest else none

below : ℕ → Option ℕ → Option ℕ
below bound none = none
below bound (some n) = if ltb n bound then some n else none

-- `s.parse::<uN>()` for the bound 2^N: an optional plus sign, then digits.
unfoldable pub parse_unsigned : ℕ → String → Option ℕ
unfolding digits_value below
parse_unsigned bound [] = none
parse_unsigned bound (c ∷ s) =
    if code c == b'+'
    then (if str_eq s [] then none else below bound (digits_value 0 s))
    else below bound (digits_value 0 (c ∷ s))

number_texts : (to_string 0 ≡ "0") × (to_string 10 ≡ "10") × (to_string 90_805 ≡ "90805")
unfolding to_string
number_texts = (refl, refl, refl)

parsed_numbers :
    (parse_unsigned (2 ^ 32) "+007" ≡ some 7)
    × (parse_unsigned (2 ^ 32) "4294967296" ≡ none)
    × (parse_unsigned (2 ^ 32) "1x" ≡ none)
unfolding parse_unsigned
parsed_numbers = (refl, refl, refl)

code-digit : (d : ℕ) → d < 10 → code (digit d) ≡ b'0' + d
unfolding digit
code-digit zero h = refl
code-digit (suc zero) h = refl
code-digit (suc (suc zero)) h = refl
code-digit (suc (suc (suc zero))) h = refl
code-digit (suc (suc (suc (suc zero)))) h = refl
code-digit (suc (suc (suc (suc (suc zero))))) h = refl
code-digit (suc (suc (suc (suc (suc (suc zero)))))) h = refl
code-digit (suc (suc (suc (suc (suc (suc (suc zero))))))) h = refl
code-digit (suc (suc (suc (suc (suc (suc (suc (suc zero)))))))) h = refl
code-digit (suc (suc (suc (suc (suc (suc (suc (suc (suc zero))))))))) h = refl
code-digit (suc (suc (suc (suc (suc (suc (suc (suc (suc (suc d)))))))))) h = absurd (omega arith)

digits_value-digit :
    (n d : ℕ) (s : String) → d < 10 → digits_value n (digit d ∷ s) ≡ digits_value (n * 10 + d) s
unfolding digits_value
digits_value-digit n d s h = ground (arith, code-digit d)

digits_value-decimal :
    (f n : ℕ) (rest : String) → n < f → digits_value 0 (decimal f n rest) ≡ digits_value n rest
unfolding decimal
digits_value-decimal zero n rest h = absurd (omega arith)
digits_value-decimal (suc f) n rest h = elim (Bool-cases (ltb n 10)) [
  | inl small ↦
      let whole : 0 * 10 + n ≡ n = omega arith in
      rw (small, digits_value-digit 0 n rest (ground arith), whole)
  | inr large ↦
      let ih = digits_value-decimal f (n / 10) (digit (n % 10) ∷ rest) (ground arith) in
      let whole : n / 10 * 10 + n % 10 ≡ n = omega arith in
      rw (large, ih, digits_value-digit (n / 10) (n % 10) rest (omega arith), whole)
]

-- The text of a number begins with a digit.
decimal-cons :
    (f n : ℕ) (rest : String)
    → n < f
    → (c : Char) × (s : String) × (decimal f n rest ≡ c ∷ s) × (b'0' ≤ code c) × (code c ≤ b'9')
unfolding decimal
decimal-cons zero n rest h = absurd (omega arith)
decimal-cons (suc f) n rest h = elim (Bool-cases (ltb n 10)) [
  | inl small ↦
      let value = code-digit n (ground arith) in
      (digit n, rest, rw small, omega arith, ground arith)
  | inr large ↦
      let (c, s, q, low, high) = decimal-cons f (n / 10) (digit (n % 10) ∷ rest) (ground arith) in
      (c, s, rw (large, q), low, high)
]

contains_char-decimal :
    (f n k : ℕ) (rest : String)
    → k < b'0'
    → contains_char k (decimal f n rest) ≡ contains_char k rest
unfolding decimal contains_char
contains_char-decimal zero n k rest h = refl
contains_char-decimal (suc f) n k rest h = elim (Bool-cases (ltb n 10)) [
  | inl small ↦ let value = code-digit n (ground arith) in rw small (ground arith)
  | inr large ↦
      let value = code-digit (n % 10) (omega arith) in
      rw (large, contains_char-decimal f (n / 10) k (digit (n % 10) ∷ rest) h) (ground arith)
]

-- A sign, a dot or a slash is not in the text of a number.
pub to_string-free : (n k : ℕ) → k < b'0' → contains_char k (to_string n) ≡ false
unfolding to_string
to_string-free n k h = contains_char-decimal (suc n) n k [] h ∙ unfold contains_char in refl

parsed :
    (bound n : ℕ) (t : String) (c : Char) (s : String)
    → t ≡ c ∷ s
    → b'0' ≤ code c
    → digits_value 0 t ≡ some n
    → n < bound
    → parse_unsigned bound t ≡ some n
unfolding parse_unsigned below
parsed bound n t c s q low value h = let value' = rw q at value in rw q (rw value' (ground arith))

parse_unsigned-decimal :
    (bound n : ℕ) → n < bound → parse_unsigned bound (decimal (suc n) n []) ≡ some n
parse_unsigned-decimal bound n h =
    let (c, s, q, low, _) = decimal-cons (suc n) n [] (omega arith) in
    parsed bound n (decimal (suc n) n []) c s q low
      (digits_value-decimal (suc n) n [] (omega arith) ∙ unfold digits_value in refl) h

-- Reading the text of a number gives the number.
pub parse_unsigned-to_string :
    (bound n : ℕ) → n < bound → parse_unsigned bound (to_string n) ≡ some n
unfolding to_string
parse_unsigned-to_string bound n h = parse_unsigned-decimal bound n h

pub to_string-cons :
    (n : ℕ) → (c : Char) × (s : String) × (to_string n ≡ c ∷ s) × (b'0' ≤ code c) × (code c ≤ b'9')
unfolding to_string
to_string-cons n = decimal-cons (suc n) n [] (omega arith)

some_inj : {a b : ℕ} → some a ≡ some b → a ≡ b
some_inj h = cc

-- Different numbers have different texts.
pub to_string_inj : (m n : ℕ) → to_string m ≡ to_string n → m ≡ n
to_string_inj m n h = some_inj (
    cc (
      parse_unsigned-to_string (suc (m + n)) m (omega arith),
      parse_unsigned-to_string (suc (m + n)) n (omega arith),
      ap (parse_unsigned (suc (m + n))) h,
    ))
