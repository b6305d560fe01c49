-- ===== src/View/Descent.antt =====
-- The walks down a path that write: what a later read finds, what stays, and when they refuse.
use pve_meta.Shared.{
  String, Bool, true, false, Option, none, some, List, [], ◌∷◌, ◌++◌, ◌≡◌, refl, arith, str_eq,
  eq_iff, eq_refl, Bool-cases, inl, inr, ap, ◌∙◌,
}
use pve_meta.DocPath.{DocPath, all_equal}
use pve_meta.Json.{Value, null, object, Fields, end, get, insert}
use pve_meta.Json.Maps.{get-insert, insert_present}
use pve_meta.Error.{Result, ok, err}
use pve_meta.View.{descend_from, or_empty, with_created}

abbrev pub is_ok {ℓ} : {A : Type ℓ} → Result A → Bool
is_ok (ok a) = true
is_ok (err x) = false

module _ {N : Type 0} {A : Type 0} (path : DocPath) (act : Fields N → Fields N × A) where
  -- The walk from an empty map cannot fail: all that is below is created.
  pub created_ok : (segs : List String) → is_ok (with_created path act (object end) segs).1 ≡ true
  unfolding with_created
  created_ok [] = refl
  created_ok (s ∷ segs) = created_ok segs

  pub created-step :
      (map : Fields N) (s : String) (segs : List String)
      → with_created path act (object map) (s ∷ segs) ≡ (
        object (insert s (with_created path act (or_empty (get s map)) segs).0 map),
        (with_created path act (or_empty (get s map)) segs).1,
      )
  unfolding with_created
  created-step map s segs = refl

  created_refused_at :
      (map : Fields N) (s : String) (segs : List String) (o : Option (Value N))
      → get s map ≡ o
      → ((v : Value N)
          → is_ok (with_created path act v segs).1 ≡ false
          → (with_created path act v segs).0 ≡ v)
      → is_ok (with_created path act (or_empty o) segs).1 ≡ false
      → insert s (with_created path act (or_empty o) segs).0 map ≡ map
  unfolding or_empty
  created_refused_at map s segs none at same h = cc (created_ok segs)
  created_refused_at map s segs (some v) at same h = rw (same v h) (insert_present s v map at)

  -- A walk that is refused has changed nothing.
  pub created_refused :
      (doc : Value N) (segs : List String)
      → is_ok (with_created path act doc segs).1 ≡ false
      → (with_created path act doc segs).0 ≡ doc
  created_refused (object map) [] h = unfold with_created in cc
  created_refused (object map) (s ∷ segs) h = rw created-step (
      ap object (
        created_refused_at map s segs (get s map) refl (λ v. created_refused v segs)
          (rw created-step at h)))
  created_refused null segs h = unfold with_created in refl
  created_refused _ segs h = unfold with_created in refl

module _ {N : Type 0} (q : DocPath) where
  abbrev pub descend_option : Option (Value N) → List String → Result (Option (Value N))
  descend_option none segs = ok none
  descend_option (some v) segs = descend_from q v segs

  pub descend-step :
      (map : Fields N) (s : String) (segs : List String)
      → descend_from q (object map) (s ∷ segs) ≡ descend_option (get s map) segs
  unfolding descend_from
  descend-step map s segs = ground arith

  -- One step down into a map that was written at that key.
  pub descend-insert_self :
      (s : String) (v : Value N) (map : Fields N) (more : List String)
      → descend_from q (object (insert s v map)) (s ∷ more) ≡ descend_from q v more
  descend-insert_self s v map more = rw (descend-step, get-insert, eq_refl)

  pub descend-insert_ne :
      (s o : String) (v : Value N) (map : Fields N) (more : List String)
      → str_eq s o ≡ false
      → descend_from q (object (insert s v map)) (o ∷ more) ≡ descend_from q (object map) (o ∷ more)
  descend-insert_ne s o v map more h = rw (descend-step, get-insert, h) (rw descend-step)

  -- Below an absent key there is as little as below the empty map that is put there.
  pub descend-or_empty :
      (o : Option (Value N)) (os ss : List String)
      → all_equal os ss ≡ false
      → descend_from q (or_empty o) os ≡ descend_option o os
  descend-or_empty (some v) os ss h = unfold or_empty in refl
  descend-or_empty none [] ss h = unfold all_equal in cc
  descend-or_empty none (o ∷ os) ss h = unfold or_empty descend_from get in refl

pub all_equal_tail :
    (s o : String) (ss os : List String)
    → all_equal (s ∷ ss) (o ∷ os) ≡ false
    → str_eq s o ≡ true
    → all_equal ss os ≡ false
unfolding all_equal
all_equal_tail s o ss os h e = ground arith

module _ {N : Type 0} {A : Type 0} (path q : DocPath) (act : Fields N → Fields N × A) where
  -- What the walk hands to `act`, as a later read from `segs` on sees it.
  pub created-descend :
      (doc : Value N) (segs more : List String)
      → is_ok (with_created path act doc segs).1 ≡ true
      → (map : Fields N) × (descend_from q (with_created path act doc segs).0 (segs ++ more)
          ≡ descend_from q (object (act map).0) more)
        × ((with_created path act doc segs).1 ≡ ok (act map).1)
  created-descend (object map) [] more h = unfold with_created in (map, refl, refl)
  created-descend (object map) (s ∷ segs) more h =
      let (found, below, same) =
        created-descend (or_empty (get s map)) segs more (rw created-step at h) in
      rw created-step (found, descend-insert_self q s _ map (segs ++ more) ∙ below, same)
  created-descend null segs more h = unfold with_created in cc
  created-descend _ segs more h = unfold with_created in cc

  module _ (key : String)
      (local : (m : Fields N) (j : String) → str_eq key j ≡ false → get j (act m).0 ≡ get j m) where
    frame_here :
        (map : Fields N) (o : String) (os : List String)
        → str_eq key o ≡ false
        → descend_from q (object (act map).0) (o ∷ os) ≡ descend_from q (object map) (o ∷ os)
    frame_here map o os h = rw (descend-step, local map o h) (rw descend-step)

    -- What neither lies above the key that `act` changes nor below it reads as before.
    pub created_frame :
        (doc : Value N) (segs other : List String)
        → all_equal (segs ++ key ∷ []) other ≡ false
        → all_equal other (segs ++ key ∷ []) ≡ false
        → descend_from q (with_created path act doc segs).0 other ≡ descend_from q doc other
    created_frame (object map) segs [] h k = unfold all_equal in cc
    created_frame (object map) [] (o ∷ os) h k =
        unfold with_created in frame_here map o os (unfold all_equal in ground arith)
    created_frame (object map) (s ∷ segs) (o ∷ os) h k = elim (Bool-cases (str_eq s o)) [
      | inl same ↦
          let h' = all_equal_tail s o (segs ++ key ∷ []) os h same in
          let k' =
            all_equal_tail o s os (segs ++ key ∷ []) k (rw ((eq_iff s o).0 same) (eq_refl o)) in
          rw (← (eq_iff s o).0 same, created-step)
            (descend-insert_self q s _ map os
              ∙ created_frame (or_empty (get s map)) segs os h' k'
              ∙ descend-or_empty q (get s map) os (segs ++ key ∷ []) k'
              ∙ rw descend-step)
      | inr other ↦ rw created-step (descend-insert_ne q s o _ map os other)
    ]
    created_frame null segs other h k = unfold with_created in refl
    created_frame _ segs other h k = unfold with_created in refl
