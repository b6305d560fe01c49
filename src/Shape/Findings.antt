-- ===== src/Shape/Findings.antt =====
-- What a document without findings is.
use pve_meta.Shared.{
  ℕ, zero, suc, ◌+◌, String, Bool, true, false, ◌||◌, Option, none, some, List, [], ◌∷◌, ◌++◌, any,
  map, str_eq, eq_iff, Eq, ◌≡◌, inl, inr, refl, arith, Bool-cases, All,
}
use pve_meta.Json.{Value, null, array, object, Items, nil, cons, Fields, end, field, get, as_object}
use mathlib.Core.List.{Memᴰ}
use mathlib.Core.List.Memᴰ.{head, tail}
use pve_meta.Model.{get_path}
use pve_meta.Shared.Sort.{sort_by-All}
use pve_meta.DocPath.{DocPath, child}
use pve_meta.Shared.Decimal.{to_string}
use pve_meta.Json.Numbers.{Numbers}
use pve_meta.Schema.{get_key, and_then, check_value, flag}
use pve_meta.Shape.{
  Declared, Report, finding, format_check, is_owner, entry_reports, findings, findings_from,
  owner_findings, earlier, reported, walk, walk_members, walk_entries,
}

abbrev pub is_finding : Report → Bool
is_finding (finding f) = true
is_finding (format_check f) = false

any-append {ℓ} :
    {A : Type ℓ} (p : A → Bool) (xs ys : List A) → any p (xs ++ ys) ≡ (any p xs || any p ys)
any-append p [] ys = refl
any-append p (x ∷ xs) ys = ground (arith, any-append p xs ys)

unfoldable pub HasNoFinding : List Report → Type 0
HasNoFinding rs = any is_finding rs ≡ false

HasNoFinding-append :
    (xs ys : List Report) → HasNoFinding (xs ++ ys) → HasNoFinding xs × HasNoFinding ys
unfolding HasNoFinding
HasNoFinding-append xs ys h =
    let split = rw (any-append is_finding xs ys) at h in (ground arith, ground arith)

module _ {N : Type 0} where
  unfoldable pub item_at : Items N → ℕ → Option (Value N)
  item_at nil i = none
  item_at (cons v items) zero = some v
  item_at (cons v items) (suc i) = item_at items i

module _ {N : Type 0} (shape : List (Declared N)) (owner : Declared N) where
  -- The schema node and the value that the walk comes to below a schema node and a value: each member
  -- of a list that has `items`, and each key that has a schema of its own under `properties` and that
  -- the owner governs.
  pub data Reaches : Value N → Value N → DocPath → Value N → Value N → Type 0 where
    here : {schema value : Value N} {path : DocPath} → Reaches schema value path schema value
    member :
        {schema items v s w : Value N} {members : Items N} {path : DocPath} (i : ℕ)
        → get_key "items" schema ≡ some items
        → item_at members i ≡ some v
        → Reaches items v (child path (to_string i)) s w
        → Reaches schema (array members) path s w
    entry :
        {schema sub v s w : Value N} {props map : Fields N} {path : DocPath} (key : String)
        → and_then (get_key "properties" schema) as_object ≡ some props
        → get key map ≡ some v
        → get key props ≡ some sub
        → is_owner shape owner (child path key) ≡ true
        → Reaches sub v (child path key) s w
        → Reaches schema (object map) path s w

module _ {N F : Type 0} (numbers : Numbers N F) ⦃e : Eq N⦄ (shape : List (Declared N))
    (owner : Declared N) where
  members-step :
      (items w : Value N) (members : Items N) (j : ℕ) (path : DocPath) (enforce : Bool)
      → walk_members numbers shape owner (some items) (cons w members) j path enforce
        ≡ walk numbers shape owner items w (child path (to_string j)) enforce
          ++ walk_members numbers shape owner (some items) members (j + 1) path enforce
  unfolding walk
  members-step items w members j path enforce = refl

  member_walked :
      (items v : Value N) (members : Items N) (i j : ℕ) (path : DocPath) (enforce : Bool)
      → item_at members i ≡ some v
      → HasNoFinding (walk_members numbers shape owner (some items) members j path enforce)
      → HasNoFinding (walk numbers shape owner items v (child path (to_string (j + i))) enforce)
  unfolding item_at
  member_walked items v nil i j path enforce q h = absurd (cc q)
  member_walked items v (cons w members) zero j path enforce q h =
      let same : w ≡ v = cc q in
      let index : j + 0 ≡ j = omega arith in
      rw (index, ← same) (HasNoFinding-append _ _ (rw members-step at h)).0
  member_walked items v (cons w members) (suc i) j path enforce q h =
      let index : j + suc i ≡ (j + 1) + i = omega arith in
      rw index (
        member_walked items v members i (j + 1) path enforce q
          (HasNoFinding-append _ _ (rw members-step at h)).1)

  entries-step :
      (props map : Fields N) (key : String) (v : Value N) (path : DocPath) (enforce : Bool)
      → walk_entries numbers shape owner (some props) (field key v map) path enforce
        ≡ entry_reports numbers shape owner
            (get key props)
            (child path key)
            (λ sub. walk numbers shape owner sub v (child path key) enforce)
            (walk_entries numbers shape owner (some props) map path enforce)
  unfolding walk
  entries-step props map key v path enforce = refl

  entry_reports_rest :
      (o : Option (Value N)) (path : DocPath) (below : Value N → List Report) (rest : List Report)
      → HasNoFinding (entry_reports numbers shape owner o path below rest)
      → HasNoFinding rest
  unfolding entry_reports
  entry_reports_rest none path below rest h = h
  entry_reports_rest (some sub) path below rest h = elim (Bool-cases (is_owner shape owner path)) [
    | inl owned ↦ (HasNoFinding-append _ _ (rw owned at h)).1
    | inr other ↦ (rw other at h)
  ]

  entry_walked :
      (props map : Fields N) (key : String) (sub v : Value N) (path : DocPath) (enforce : Bool)
      → get key map ≡ some v
      → get key props ≡ some sub
      → is_owner shape owner (child path key) ≡ true
      → HasNoFinding (walk_entries numbers shape owner (some props) map path enforce)
      → HasNoFinding (walk numbers shape owner sub v (child path key) enforce)
  unfolding get entry_reports
  entry_walked props end key sub v path enforce there described owned h = absurd (cc there)
  entry_walked props (field j w map) key sub v path enforce there described owned h =
      elim (Bool-cases (str_eq j key)) [
        | inl same ↦
            let name : j ≡ key = (eq_iff j key).0 same in
            let value : w ≡ v = cc (rw same at there) in
            let walked = rw (entries-step, name, value, described) at h in
            (HasNoFinding-append _ _ (rw owned at walked)).0
        | inr other ↦
            entry_walked props map key sub v path enforce (rw other at there) described owned
              (entry_reports_rest (get j props) (child path j) _ _ (rw entries-step at h))
      ]

  reported_nothing :
      (msg : Option String) (schema value : Value N) (path : DocPath) (enforce : Bool)
      (below : List Report)
      → HasNoFinding (reported numbers shape owner msg schema value path enforce below)
      → (msg ≡ none) × HasNoFinding below
  unfolding reported
  reported_nothing none schema value path enforce below h = (refl, (HasNoFinding-append _ _ h).1)
  reported_nothing (some m) schema value path enforce below h = unfold HasNoFinding in absurd (cc h)

  -- what the walk asks for below a value
  below_of : Value N → Value N → DocPath → Bool → List Report
  below_of schema (array members) path enforce =
      walk_members numbers shape owner (get_key "items" schema) members 0 path enforce
  below_of schema (object map) path enforce =
      walk_entries numbers shape owner (and_then (get_key "properties" schema) as_object) map path
        enforce
  below_of schema _ path enforce = []

  array_below :
      (schema : Value N) (members : Items N) (path : DocPath) (enforce : Bool) (items : Value N)
      → get_key "items" schema ≡ some items
      → HasNoFinding (below_of schema (array members) path enforce)
      → HasNoFinding (walk_members numbers shape owner (some items) members 0 path enforce)
  unfolding below_of
  array_below schema members path enforce items q h = rw q at h

  map_below :
      (schema : Value N) (map : Fields N) (path : DocPath) (enforce : Bool) (props : Fields N)
      → and_then (get_key "properties" schema) as_object ≡ some props
      → HasNoFinding (below_of schema (object map) path enforce)
      → HasNoFinding (walk_entries numbers shape owner (some props) map path enforce)
  unfolding below_of
  map_below schema map path enforce props q h = rw q at h

  walk-step :
      (schema value : Value N) (path : DocPath) (inherited : Bool)
      → walk numbers shape owner schema value path inherited
        ≡ reported numbers shape owner
            (check_value numbers schema value)
            schema
            value
            path
            (flag numbers schema "enforce" inherited)
            (below_of schema value path (flag numbers schema "enforce" inherited))
  unfolding walk below_of
  walk-step schema (array members) path inherited = refl
  walk-step schema (object map) path inherited = refl
  walk-step schema null path inherited = refl
  walk-step schema _ path inherited = refl

  walked :
      (schema value : Value N) (path : DocPath) (inherited : Bool)
      → HasNoFinding (walk numbers shape owner schema value path inherited)
      → (check_value numbers schema value ≡ none)
        × HasNoFinding (below_of schema value path (flag numbers schema "enforce" inherited))
  walked schema value path inherited h =
      reported_nothing _ schema value path _ _ (rw walk-step at h)

  first_walked :
      (items v : Value N) (members : Items N) (i : ℕ) (path : DocPath) (enforce : Bool)
      → item_at members i ≡ some v
      → HasNoFinding (walk_members numbers shape owner (some items) members 0 path enforce)
      → HasNoFinding (walk numbers shape owner items v (child path (to_string i)) enforce)
  first_walked items v members i path enforce q h =
      let index : 0 + i ≡ i = omega arith in
      rw index at (member_walked items v members i 0 path enforce q h)

  walk_complete :
      (schema value : Value N) (path : DocPath) (inherited : Bool) (s w : Value N)
      → HasNoFinding (walk numbers shape owner schema value path inherited)
      → Reaches shape owner schema value path s w
      → check_value numbers s w ≡ none
  walk_complete schema value path inherited s w h here = (walked schema value path inherited h).0
  walk_complete schema _ path inherited s w h (member i described there r) =
      let below = array_below schema _ path _ _ described (walked schema _ path inherited h).1 in
      walk_complete _ _ _ _ s w (first_walked _ _ _ i path _ there below) r
  walk_complete schema _ path inherited s w h (entry key described there sub owned r) =
      let below = map_below schema _ path _ _ described (walked schema _ path inherited h).1 in
      walk_complete _ _ _ _ s w (entry_walked _ _ key _ _ path _ there sub owned below) r

any-All : {A : Type 0} (p : A → Bool) (xs : List A) → any p xs ≡ false → All (λ x. p x ≡ false) xs
any-All p [] h = tt
any-All p (x ∷ xs) h = (ground arith, any-All p xs (ground arith))

All-any : {A : Type 0} (p : A → Bool) (xs : List A) → All (λ x. p x ≡ false) xs → any p xs ≡ false
All-any p [] h = refl
All-any p (x ∷ xs) (q, h) = ground (arith, All-any p xs h)

module _ {N F : Type 0} (numbers : Numbers N F) ⦃e : Eq N⦄ (shape : List (Declared N)) where
  findings-step :
      (x : Declared N) (owners : List (Declared N)) (doc : Value N)
      → findings_from numbers shape (x ∷ owners) doc
        ≡ owner_findings numbers shape x x.schema (get_path doc x.prefix)
          ++ findings_from numbers shape owners doc
  unfolding findings_from
  findings-step x owners doc = refl

  from_owner :
      (owners : List (Declared N)) (doc : Value N) (owner : Declared N)
      → HasNoFinding (findings_from numbers shape owners doc)
      → Memᴰ owner owners
      → HasNoFinding (owner_findings numbers shape owner owner.schema (get_path doc owner.prefix))
  from_owner [] doc owner h m = elim m [ ]
  from_owner (x ∷ owners) doc owner h m =
      let (here', rest) = HasNoFinding-append _ _ (rw findings-step at h) in
      elim m [ head q ↦ rw q here' | tail k ↦ from_owner owners doc owner rest k ]

  owner_walked :
      (owner : Declared N) (schema value : Value N) (o p : Option (Value N))
      → o ≡ some schema
      → p ≡ some value
      → HasNoFinding (owner_findings numbers shape owner o p)
      → HasNoFinding (walk numbers shape owner schema value owner.prefix owner.enforce)
  unfolding owner_findings
  owner_walked owner schema value o p q k h = rw (q, k) at h

  -- A document without findings conforms: every value that is reached from a declared prefix with
  -- its schema, through the keys that the schema describes and the prefix governs and through list
  -- members, passes the check of the schema node that it is reached with, at any depth.
  pub findings_complete :
      (doc : Value N) (owner : Declared N) (schema value s w : Value N)
      → HasNoFinding (findings numbers shape doc)
      → Memᴰ owner shape
      → owner.schema ≡ some schema
      → get_path doc owner.prefix ≡ some value
      → Reaches shape owner schema value owner.prefix s w
      → check_value numbers s w ≡ none
  findings_complete doc owner schema value s w h m declares there r =
      let unsorted : HasNoFinding (findings_from numbers shape shape doc) =
        unfold HasNoFinding findings in
        All-any is_finding _ (sort_by-All earlier _ _ (any-All is_finding _ h)) in
      walk_complete numbers shape owner schema value owner.prefix owner.enforce s w
        (owner_walked owner schema value owner.schema (get_path doc owner.prefix) declares there
          (from_owner shape doc owner unsorted m))
        r
