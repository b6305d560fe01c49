-- ===== src/DocPath/Segments.antt =====
-- The order of paths by prefix, and the taking apart of a path at its last segment.
use pve_meta.Shared.{
  String, ◌≡◌, refl, ap, ◌↔◌, ◌⊎◌, inl, inr, sym, ◌∙◌, true, none, some, List, [], ◌∷◌, ◌++◌, arith,
  eq_iff, eq_refl,
}
use pve_meta.DocPath.{DocPath, last_of, last, pop, parent, child, all_equal, is_prefix_of}

all_equal-append : (as' bs : List String) → all_equal as' (as' ++ bs) ≡ true
unfolding all_equal
all_equal-append [] bs = refl
all_equal-append (a ∷ as') bs = ground (arith, eq_refl a, all_equal-append as' bs)

-- What is left of `bs` behind its prefix `as'`.
rest_of : List String → List String → List String
rest_of [] bs = bs
rest_of (a ∷ as') [] = []
rest_of (a ∷ as') (b ∷ bs) = rest_of as' bs

all_equal_sound : (as' bs : List String) → all_equal as' bs ≡ true → bs ≡ as' ++ rest_of as' bs
unfolding all_equal rest_of
all_equal_sound [] bs h = refl
all_equal_sound (a ∷ as') [] h = cc
all_equal_sound (a ∷ as') (b ∷ bs) h = ground (arith, eq_iff a b, all_equal_sound as' bs)

-- The paths of which `p` is a prefix are exactly those that continue the segments of `p`.
pub is_prefix_of_iff :
    (p other : DocPath)
    → (is_prefix_of p other ≡ true) ↔ ((rest : List String) × (other.segments ≡ p.segments ++ rest))
unfolding is_prefix_of
is_prefix_of_iff p other = (
  λ h. (rest_of p.segments other.segments, all_equal_sound p.segments other.segments h),
  λ (rest, e). rw e (all_equal-append p.segments rest),
)

pop-append : (ss : List String) (s : String) → pop (ss ++ s ∷ []) ≡ ss
unfolding pop
pop-append [] s = refl
pop-append (t ∷ []) s = refl
pop-append (t ∷ u ∷ ss) s = ap (◌∷◌ t) (pop-append (u ∷ ss) s)

last_of-append : (ss : List String) (s : String) → last_of (ss ++ s ∷ []) ≡ some s
unfolding last_of
last_of-append [] s = refl
last_of-append (t ∷ []) s = refl
last_of-append (t ∷ u ∷ ss) s = last_of-append (u ∷ ss) s

is_empty-append :
    (ss : List String) (s : String)
    → (parent (record { segments = ss ++ s ∷ [] }))
      ≡ some (record { segments = pop (ss ++ s ∷ []) })
unfolding parent
is_empty-append [] s = refl
is_empty-append (t ∷ ss) s = refl

-- A path with a segment put behind it has that path as its parent, and that segment as its last.
pub parent-child :
    (p : DocPath) (s : String) → (parent (child p s) ≡ some p) × (last (child p s) ≡ some s)
unfolding child last
parent-child p s =
    (rw (is_empty-append p.segments s) (rw (pop-append p.segments s)), last_of-append p.segments s)

pop-last_of :
    (s : String) (ss : List String)
    → (l : String) × (last_of (s ∷ ss) ≡ some l) × (pop (s ∷ ss) ++ l ∷ [] ≡ s ∷ ss)
unfolding last_of pop
pop-last_of s [] = (s, refl, refl)
pop-last_of s (t ∷ ss) = let (l, found, same) = pop-last_of t ss in (l, found, ap (◌∷◌ s) same)

-- A path is the root, or a last segment behind its parent.
pub path_cases :
    (p : DocPath)
    → ((parent p ≡ none) × (p.segments ≡ []))
      ⊎ ((q : DocPath) × (s : String) × (parent p ≡ some q)
          × (last p ≡ some s)
          × (p.segments ≡ q.segments ++ s ∷ []))
unfolding parent last
path_cases p = go p.segments refl
  where
    go :
        (ss : List String)
        → p.segments ≡ ss
        → ((parent p ≡ none) × (p.segments ≡ []))
          ⊎ ((q : DocPath) × (s : String) × (parent p ≡ some q)
              × (last p ≡ some s)
              × (p.segments ≡ q.segments ++ s ∷ []))
    go [] e = inl (rw e, e)
    go (s ∷ ss) e =
        let (l, found, same) = pop-last_of s ss in
        inr (record { segments = pop (s ∷ ss) }, l, rw e, rw e found, e ∙ sym same)
