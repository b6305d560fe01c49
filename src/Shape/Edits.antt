-- ===== src/Shape/Edits.antt =====
-- The findings that an edit answers for.
use pve_meta.Shared.{
  String, Bool, true, false, not, ◌||◌, List, [], ◌∷◌, ◌++◌, any, eq_iff, if◌then◌else◌, ◌≡◌, ◌↔◌,
  inl, inr, refl, sym, arith, Bool-cases, All,
}
use mathlib.Core.List.{Memᴰ}
use mathlib.Core.List.Memᴰ.{head, tail}
use pve_meta.DocPath.{DocPath, is_prefix_of}
use pve_meta.DocPath.Segments.{is_prefix_of_iff}
use pve_meta.Shape.{same_flag, Finding, same_segments, same_finding, is_touched, introduced}

same_segments_iff : (a b : List String) → (same_segments a b ≡ true) ↔ (a ≡ b)
unfolding same_segments
same_segments_iff [] [] = ((λ _. refl), λ _. refl)
same_segments_iff [] (b ∷ bs) = ((λ h. cc), λ h. absurd (cc h))
same_segments_iff (a ∷ as') [] = ((λ h. cc), λ h. absurd (cc h))
same_segments_iff (a ∷ as') (b ∷ bs) = ground (arith, eq_iff a b, same_segments_iff as' bs)

record_eq :
    (f g : Finding)
    → f.path.segments ≡ g.path.segments
    → f.msg ≡ g.msg
    → f.enforced ≡ g.enforced
    → f ≡ g
record_eq f g a b c = cc

same_flag_iff : (a b : Bool) → (same_flag a b ≡ true) ↔ (a ≡ b)
unfolding same_flag
same_flag_iff true b = ((λ h. sym h), λ h. sym h)
same_flag_iff false b = ground arith

same_finding_iff : (f g : Finding) → (same_finding f g ≡ true) ↔ (f ≡ g)
unfolding same_finding
same_finding_iff f g = (
  (λ h.
      record_eq f g ((same_segments_iff _ _).0 (ground arith)) ((eq_iff _ _).0 (ground arith))
        ((same_flag_iff _ _).0 (ground arith))),
  λ q. rw q (
      rw ((same_segments_iff g.path.segments g.path.segments).1 refl, (eq_iff g.msg g.msg).1 refl)
        ((same_flag_iff g.enforced g.enforced).1 refl)),
)

any_same :
    (f : Finding) (before : List Finding) → (any (same_finding f) before ≡ true) → Memᴰ f before
any_same f [] h = absurd (cc h)
any_same f (g ∷ before) h = elim (Bool-cases (same_finding f g)) [
  | inl same ↦ head ((same_finding_iff f g).0 same)
  | inr other ↦ tail (any_same f before (rw other at h))
]

same_any :
    (f : Finding) (before : List Finding) → Memᴰ f before → any (same_finding f) before ≡ true
same_any f [] m = elim m [ ]
same_any f (g ∷ before) m = elim m [
  | head q ↦ rw ((same_finding_iff f g).1 q)
  | tail k ↦ ground (arith, same_any f before k)
]

guarded_nil :
    (old touched : Bool) (f : Finding) (rest : List Finding)
    → ((if not old || touched then f ∷ rest else rest) ≡ [])
      ↔ ((old ≡ true) × (touched ≡ false) × (rest ≡ []))
guarded_nil false touched f rest = ((λ h. absurd (cc h)), λ (h, _, _). absurd (cc h))
guarded_nil true true f rest = ((λ h. absurd (cc h)), λ (_, h, _). absurd (cc h))
guarded_nil true false f rest = ((λ h. (refl, refl, h)), λ (_, _, h). h)

-- Two paths of which neither continues the other.
abbrev pub IsBeside : DocPath → DocPath → Type 0
IsBeside p q =
    ¬ ((rest : List String) × (q.segments ≡ p.segments ++ rest))
    × ¬ ((rest : List String) × (p.segments ≡ q.segments ++ rest))

or_false : (a b : Bool) → ((a || b) ≡ false) ↔ ((a ≡ false) × (b ≡ false))
or_false a b = ground arith

not_prefix_iff :
    (p q : DocPath)
    → (is_prefix_of p q ≡ false) ↔ ¬ ((rest : List String) × (q.segments ≡ p.segments ++ rest))
not_prefix_iff p q = (
  (λ h found. absurd (cc (h, (is_prefix_of_iff p q).1 found))),
  λ h. elim (Bool-cases (is_prefix_of p q)) [
    | inl covered ↦ absurd (h ((is_prefix_of_iff p q).0 covered))
    | inr apart ↦ apart
  ],
)

is_touched_iff :
    (changed : List DocPath) (path : DocPath)
    → (is_touched changed path ≡ false) ↔ All (λ c. IsBeside c path) changed
unfolding is_touched
is_touched_iff [] path = ((λ _. tt), λ _. refl)
is_touched_iff (c ∷ changed) path =
    let ih = is_touched_iff changed path in
    let above = not_prefix_iff c path in
    let below = not_prefix_iff path c in
    (
      (λ h.
          let (here, others) = (or_false _ _).0 h in
          let (a, b) = (or_false _ _).0 here in ((above.0 a, below.0 b), ih.0 others)),
      λ ((a, b), others). (or_false _ _).1 ((or_false _ _).1 (above.1 a, below.1 b), ih.1 others),
    )

-- An edit answers for nothing exactly if every finding of the planned document is one that the
-- stored document has, on a path that does not continue a path that the edit changed, and that no such
-- path continues.
pub introduced_nothing_iff :
    (before after : List Finding) (changed : List DocPath)
    → (introduced before after changed ≡ [])
      ↔ All (λ f. Memᴰ f before × All (λ c. IsBeside c f.path) changed) after
unfolding introduced
introduced_nothing_iff before [] changed = ((λ _. tt), λ _. refl)
introduced_nothing_iff before (f ∷ after) changed =
    let ih = introduced_nothing_iff before after changed in
    let beside = is_touched_iff changed f.path in
    let here =
      guarded_nil (any (same_finding f) before) (is_touched changed f.path) f
        (introduced before after changed) in
    (
      (λ h.
          let (old, apart, rest) = here.0 h in
          ((any_same f before old, beside.0 apart), ih.0 rest)),
      λ ((m, apart), h). here.1 (same_any f before m, beside.1 apart, ih.1 h),
    )
