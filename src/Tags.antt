-- ===== src/Tags.antt =====
-- A guest's tags (crates/pve-meta-core/src/tags.rs) and the short form of a digest
-- (crates/pve-meta-core/src/digest.rs).
use pve_meta.Shared.{
  ℕ, zero, suc, String, Bool, false, ◌||◌, List, [], ◌∷◌, str_eq, if◌then◌else◌, ◌==◌, ◌≡◌, inl,
  inr, refl, Bool-cases, All, code,
}

take_chars : ℕ → String → String
take_chars zero s = ""
take_chars (suc n) String.[] = ""
take_chars (suc n) (String.◌∷◌ c s) = String.◌∷◌ c (take_chars n s)

-- the first twelve characters
unfoldable pub short : String → String
unfolding take_chars
short d = take_chars 12 d

-- a part that has been read, before the parts that follow it, unless it is empty
push_part : String → List String → List String
push_part part parts = if str_eq part "" then parts else part ∷ parts

-- `char::is_whitespace`, which is that of Unicode, is a parameter.
module _ (is_whitespace : ℕ → Bool) where
  tag_parts : String → String × List String
  unfolding push_part
  tag_parts String.[] = ("", [])
  tag_parts (String.◌∷◌ c s) =
      let (part, parts) = tag_parts s in
      if code c == b';' || code c == b',' || is_whitespace (code c)
      then ("", push_part part parts)
      else (String.◌∷◌ c part, parts)

  unfoldable pub split_tags : String → List String
  unfolding tag_parts push_part
  split_tags raw = let (part, parts) = tag_parts raw in push_part part parts

  push_part-All :
      (part : String) (parts : List String)
      → All (λ t. str_eq t "" ≡ false) parts
      → All (λ t. str_eq t "" ≡ false) (push_part part parts)
  unfolding push_part
  push_part-All part parts h = elim (Bool-cases (str_eq part "")) [
    | inl blank ↦ rw blank h
    | inr named ↦ rw named (named, h)
  ]

  tag_parts-All : (raw : String) → All (λ t. str_eq t "" ≡ false) (tag_parts raw).1
  unfolding tag_parts
  tag_parts-All String.[] = tt
  tag_parts-All (String.◌∷◌ c s) =
      elim (Bool-cases (code c == b';' || code c == b',' || is_whitespace (code c))) [
        | inl separator ↦
            rw separator (push_part-All (tag_parts s).0 (tag_parts s).1 (tag_parts-All s))
        | inr other ↦ rw other (tag_parts-All s)
      ]

  -- No tag is empty.
  split_tags-All : (raw : String) → All (λ t. str_eq t "" ≡ false) (split_tags raw)
  unfolding split_tags
  split_tags-All raw = push_part-All (tag_parts raw).0 (tag_parts raw).1 (tag_parts-All raw)

is_blank : ℕ → Bool
is_blank c = c == b' ' || c == 9 || c == 10

tags_of_the_tests :
    (split_tags is_blank "a;b;;c" ≡ "a" ∷ "b" ∷ "c" ∷ [])
    × (split_tags is_blank ";;" ≡ [])
    × (short "0123456789abcdef" ≡ "0123456789ab")
unfolding split_tags is_blank short
tags_of_the_tests = (refl, refl, refl)
