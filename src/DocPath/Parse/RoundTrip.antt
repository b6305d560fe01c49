-- ===== src/DocPath/Parse/RoundTrip.antt =====
-- What `Path::parse` accepts, and the parsing of what a path displays as.
use Prim.Native.String.{[] as empty, ◌∷◌ as prepend, ◌++◌ as concat}
use text.Mathlib.TextLemmas.{nil-append, cons-append}
use pve_meta.Shared.{
  ℕ, String, code, ◌≡◌, refl, true, false, List, [], ◌∷◌, All, arith, str_eq, ◌==◌,
}
use pve_meta.Shared.Text.{
  contains_char, strip_prefix_char, split, join, IsFree, split-join, join-IsFree,
  strip_prefix_char-free, str_eq-cons-nil,
}
use pve_meta.DocPath.{DocPath, is_segment_char, invalid_char, is_valid_segment, display, is_none}
use pve_meta.DocPath.Parse.{parse_parts, separator, from_segments, parse}
use pve_meta.Error.{Error, invalid_path, ok, err}

abbrev pub IsSegment : String → Type 0
IsSegment s = is_valid_segment s ≡ true

-- Every segment of the path satisfies the segment rule.
abbrev pub IsValid : DocPath → Type 0
IsValid p = All IsSegment p.segments

parse_parts-IsSegment :
    (text : String) (parts segments : List String)
    → parse_parts text parts ≡ ok segments
    → All IsSegment segments
unfolding parse_parts
parse_parts-IsSegment text [] segments h = ground arith
parse_parts-IsSegment text (part ∷ parts) [] h = ground arith
parse_parts-IsSegment text (part ∷ parts) (s ∷ ss) h =
    ground (arith, parse_parts-IsSegment text parts ss)

free_of_valid_char :
    (n m : ℕ) → is_segment_char m ≡ true → is_segment_char n ≡ false → (m == n) ≡ false
unfolding is_segment_char
free_of_valid_char n m h k = ground arith

invalid_char-IsFree :
    (n : ℕ) (s : String) → is_segment_char n ≡ false → is_none (invalid_char s) ≡ true → IsFree n s
unfolding invalid_char contains_char
invalid_char-IsFree n empty k h = refl
invalid_char-IsFree n (prepend c s) k h =
    ground (arith, free_of_valid_char n (code c), invalid_char-IsFree n s k)

is_valid_segment-IsFree :
    (n : ℕ) (s : String) → is_segment_char n ≡ false → IsSegment s → IsFree n s
unfolding is_valid_segment
is_valid_segment-IsFree n s k h = ground (arith, invalid_char-IsFree n s k)

All-IsFree :
    (n : ℕ) (ss : List String) → is_segment_char n ≡ false → All IsSegment ss → All (IsFree n) ss
All-IsFree n [] k _ = tt
All-IsFree n (s ∷ ss) k (h, hs) = (is_valid_segment-IsFree n s k h, All-IsFree n ss k hs)

join-ne-nil :
    (sep s : String) (ss : List String) → IsSegment s → str_eq (join sep (s ∷ ss)) "" ≡ false
unfolding join is_valid_segment
join-ne-nil sep empty ss h = cc
join-ne-nil sep (prepend c s) [] h = str_eq-cons-nil c s
join-ne-nil sep (prepend c s) (t ∷ ss) h = rw cons-append (str_eq-cons-nil c _)

parse_parts_valid :
    (text : String) (ss : List String) → All IsSegment ss → parse_parts text ss ≡ ok ss
unfolding parse_parts
parse_parts_valid text [] _ = refl
parse_parts_valid text (s ∷ ss) (h, hs) = rw (h, parse_parts_valid text ss hs)

-- The segments of a path that `parse` accepts are valid, whatever the text.
pub parse-IsValid : (text : String) (p : DocPath) → parse text ≡ ok p → IsValid p
unfolding parse
parse-IsValid text p h = ground (
  arith,
  parse_parts-IsSegment text (split (separator text) (strip_prefix_char b'/' text)) p.segments,
)

dot_is_no_segment_char : is_segment_char b'.' ≡ false
unfolding is_segment_char
dot_is_no_segment_char = refl

slash_is_no_segment_char : is_segment_char b'/' ≡ false
unfolding is_segment_char
slash_is_no_segment_char = refl

-- The dotted text holds no slash, so that `parse` splits the whole of it at the dots.
separator-dotted : (ss : List String) → All IsSegment ss → contains_char b'/' (join "." ss) ≡ false
separator-dotted ss h =
    join-IsFree b'/' "." ss (unfold contains_char in refl)
      (All-IsFree b'/' ss slash_is_no_segment_char h)

split-dotted :
    (s : String) (ss : List String)
    → All IsSegment (s ∷ ss)
    → split b'.' (join "." (s ∷ ss)) ≡ s ∷ ss
split-dotted s ss h =
    split-join b'.' _ s ss refl (All-IsFree b'.' (s ∷ ss) dot_is_no_segment_char h)

parse-join : (ss : List String) → All IsSegment ss → parse (join "." ss) ≡ ok (from_segments ss)
parse-join [] h = unfold parse join in refl
parse-join (s ∷ ss) h =
    let d = join "." (s ∷ ss) in
    unfold parse in
    ground (
      arith,
      separator-dotted (s ∷ ss) h,
      strip_prefix_char-free b'/' d (separator-dotted (s ∷ ss) h),
      join-ne-nil "." s ss h.0,
      split-dotted s ss h,
      parse_parts_valid d (s ∷ ss) h,
    )

-- What a path of valid segments displays as parses to that path.
pub parse-display : (p : DocPath) → IsValid p → parse (display p) ≡ ok p
unfolding display from_segments
parse-display p h = parse-join p.segments h

pub slashed : List String → String
slashed ss = concat "/" (join "/" ss)

separator-slashed : (ss : List String) → contains_char b'/' (slashed ss) ≡ true
unfolding slashed contains_char
separator-slashed ss = rw cons-append refl

strip-slashed : (ss : List String) → strip_prefix_char b'/' (slashed ss) ≡ join "/" ss
unfolding slashed strip_prefix_char
strip-slashed ss = rw cons-append (rw nil-append refl)

split-slashed :
    (s : String) (ss : List String)
    → All IsSegment (s ∷ ss)
    → split b'/' (join "/" (s ∷ ss)) ≡ s ∷ ss
split-slashed s ss h =
    split-join b'/' _ s ss refl (All-IsFree b'/' (s ∷ ss) slash_is_no_segment_char h)

-- The absolute slash-separated form of valid segments parses to the path of these segments.
pub parse-slashed :
    (ss : List String) → All IsSegment ss → parse (slashed ss) ≡ ok (record { segments = ss })
parse-slashed [] h = unfold parse slashed join in refl
parse-slashed (s ∷ ss) h =
    unfold parse in
    ground (
      arith,
      separator-slashed (s ∷ ss),
      strip-slashed (s ∷ ss),
      join-ne-nil "/" s ss h.0,
      split-slashed s ss h,
      parse_parts_valid (slashed (s ∷ ss)) (s ∷ ss) h,
    )

parse_parts_refusal :
    (text : String) (parts : List String) (e : Error)
    → parse_parts text parts ≡ err e
    → e ≡ invalid_path text
unfolding parse_parts
parse_parts_refusal text [] e h = cc
parse_parts_refusal text (part ∷ parts) e h = ground (arith, parse_parts_refusal text parts e)

-- A text that `parse` refuses is refused with the error that names the whole text.
pub parse_refusal : (text : String) (e : Error) → parse text ≡ err e → e ≡ invalid_path text
unfolding parse
parse_refusal text e h =
    ground
      (arith, parse_parts_refusal text (split (separator text) (strip_prefix_char b'/' text)) e)
