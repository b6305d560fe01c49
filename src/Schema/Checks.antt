-- ===== src/Schema/Checks.antt =====
-- What the check of one value against one schema node accepts.
use pve_meta.Shared.{
  String, Bool, true, false, Option, none, some, any, Eq, ◌≡◌, ◌↔◌, inl, inr, refl, arith,
  Bool-cases,
}
use pve_meta.Json.{Value, Items}
use pve_meta.Json.Numbers.{Numbers}
use pve_meta.Schema.{
  get_key, and_then, or_else, as_str, as_array, as_number, items_list, type_matches, enum_admits,
  check_type, check_enum, check_bound, check_range, check_value,
}

some_inj {ℓ} : {A : Type ℓ} {a b : A} → some a ≡ some b → a ≡ b
some_inj q = cc

or_else-eq-none : (a b : Option String) → (or_else a b ≡ none) ↔ ((a ≡ none) × (b ≡ none))
or_else-eq-none none b = ((λ h. (refl, h)), λ (_, h). h)
or_else-eq-none (some m) b = ((λ h. absurd (cc h)), λ (h, _). absurd (cc h))

module _ {N F : Type 0} (numbers : Numbers N F) ⦃e : Eq N⦄ (schema value : Value N) where
  -- The value has the type that the schema declares, if it declares one.
  abbrev pub HasType : Type 0
  HasType =
      (t : String)
      → and_then (get_key "type" schema) as_str ≡ some t
      → type_matches numbers t value ≡ true

  -- The value is one of the members of `enum`, if there is one.
  abbrev pub IsListed : Type 0
  IsListed =
      (allowed : Items N)
      → and_then (get_key "enum" schema) as_array ≡ some allowed
      → any (λ member. enum_admits numbers (and_then (get_key "type" schema) as_str) member value)
          (items_list allowed)
        ≡ true

  -- If the value and the bound under the key are both numbers, the test does not find a miss.
  abbrev pub IsWithin : String → (F → F → Bool) → Type 0
  IsWithin key misses =
      (n b : F) (bound : Value N)
      → as_number numbers value ≡ some n
      → get_key key schema ≡ some bound
      → as_number numbers bound ≡ some b
      → misses n b ≡ false

  check_type_iff :
      (declared : Option String)
      → (check_type numbers declared value ≡ none)
        ↔ ((t : String) → declared ≡ some t → type_matches numbers t value ≡ true)
  unfolding check_type
  check_type_iff none = ((λ h t q. cc), λ h. refl)
  check_type_iff (some t) = ((λ h t' q. ground arith), λ h. ground (arith, h t refl))

  check_enum_iff :
      (declared : Option String) (listed : Option (Items N))
      → (check_enum numbers declared listed value ≡ none) ↔ (
          (allowed : Items N)
          → listed ≡ some allowed
          → any (λ member. enum_admits numbers declared member value) (items_list allowed) ≡ true)
  unfolding check_enum
  check_enum_iff declared none = ((λ h allowed q. cc), λ h. refl)
  check_enum_iff declared (some allowed) = (
    (λ h allowed' q.
        elim (Bool-cases
          (any (λ member. enum_admits numbers declared member value) (items_list allowed))) [
            | inl y ↦ rw (← some_inj q) y
            | inr n ↦ absurd (cc (rw n at h))
          ]),
    λ h. rw (h allowed refl),
  )

  bound_iff :
      (n : F) (misses : F → F → Bool) (text : String) (bound : Value N) (o : Option F)
      → as_number numbers bound ≡ o
      → (check_bound numbers (misses n) text (some bound) ≡ none)
        ↔ ((b : F) → o ≡ some b → misses n b ≡ false)
  unfolding check_bound
  bound_iff n misses text bound none h = ((λ k b q. cc), λ k. rw (check_bound, h))
  bound_iff n misses text bound (some b) h =
      rw (check_bound, h) ((λ k b' q. rw (← some_inj q) (ground arith)), λ k. rw (k b refl))

  check_bound_iff :
      (n : F) (misses : F → F → Bool) (text : String) (found : Option (Value N))
      → (check_bound numbers (misses n) text found ≡ none) ↔ (
          (b : F) (bound : Value N)
          → found ≡ some bound
          → as_number numbers bound ≡ some b
          → misses n b ≡ false)
  check_bound_iff n misses text none = ((λ h b bound q k. cc), λ h. unfold check_bound in refl)
  check_bound_iff n misses text (some bound) =
      let both = bound_iff n misses text bound (as_number numbers bound) refl in
      ((λ h b bound' q k. both.0 h b (rw (some_inj q) k)), λ h. both.1 (λ b k. h b bound refl k))

  range_iff :
      (o : Option F)
      → as_number numbers value ≡ o
      → (check_range numbers schema value ≡ none) ↔ (
          ((n b : F) (bound : Value N)
            → o ≡ some n
            → get_key "minimum" schema ≡ some bound
            → as_number numbers bound ≡ some b
            → numbers.less n b ≡ false)
          × ((n b : F) (bound : Value N)
              → o ≡ some n
              → get_key "maximum" schema ≡ some bound
              → as_number numbers bound ≡ some b
              → numbers.less b n ≡ false))
  unfolding check_range
  range_iff none h = ((λ k. (λ n b bound q. cc, λ n b bound q. cc)), λ k. rw (check_range, h))
  range_iff (some n) h =
      let low = check_bound_iff n numbers.less "must be at least " (get_key "minimum" schema) in
      let high =
        check_bound_iff n (λ a b. numbers.less b a) "must be at most " (get_key "maximum" schema) in
      let both = or_else-eq-none _ _ in
      rw (check_range, h)
        (
          (λ k.
              let (a, c) = both.0 k in
              (
                λ n' b bound q. rw (← some_inj q) (low.0 a b bound),
                λ n' b bound q. rw (← some_inj q) (high.0 c b bound),
              )),
          λ (a, c).
              both.1 (low.1 (λ b bound. a n b bound refl), high.1 (λ b bound. c n b bound refl)),
        )

  -- A value passes the check exactly if it has the declared type, is one of the listed members, and
  -- is neither below the minimum nor above the maximum; what the schema does not state, or does not
  -- state with a value of the right kind, asks nothing.
  pub check_value_iff : (check_value numbers schema value ≡ none) ↔ (
      HasType
      × IsListed
      × IsWithin "minimum" numbers.less
      × IsWithin "maximum" (λ n b. numbers.less b n))
  unfolding check_value
  check_value_iff =
      let type = check_type_iff (and_then (get_key "type" schema) as_str) in
      let listed =
        check_enum_iff (and_then (get_key "type" schema) as_str)
          (and_then (get_key "enum" schema) as_array) in
      let range = range_iff (as_number numbers value) refl in
      (
        (λ h.
            let (a, rest) = (or_else-eq-none _ _).0 h in
            let (b, c) = (or_else-eq-none _ _).0 rest in
            let (low, high) = range.0 c in
            (type.0 a, listed.0 b, (λ n k. low n k), (λ n k. high n k))),
        λ (a, b, low, high). (or_else-eq-none _ _).1 (
          type.1 a,
          (or_else-eq-none _ _).1 (listed.1 b, range.1 ((λ n k. low n k), λ n k. high n k)),
        ),
      )
