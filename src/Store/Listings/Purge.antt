-- ===== src/Store/Listings/Purge.antt =====
-- What the removal of all of a guest's files leaves.
use pve_meta.Shared.{
  ℕ, String, Bool, true, false, none, List, [], ◌∷◌, ◌==◌, ==_iff, ◌≡◌, refl, ap, ◌∙◌,
}
use pve_meta.DocId.{guest}
use pve_meta.Error.{Result, ok, err}
use pve_meta.Format.Texts.{Libraries}
use pve_meta.View.Descent.{is_ok}
use pve_meta.Store.{MetaStore, World}
use pve_meta.Store.Ops.{delete, delete_snapshot}
use pve_meta.Store.Spec.{
  Model, delete_op, delete_snapshot_op, set_doc, set_snap, after, step, perform, model_of,
}
use pve_meta.Store.Refines.{model_of-perform}
use pve_meta.Store.Listings.{purge, purge_listed, purge_snapshots, and_then, added, list_snapshots}

-- Another guest's document and snapshots are the same in both models.
abbrev pub IsSameFor : {B : Type 0} → ℕ → Model B → Model B → Type 0
IsSameFor u m n = (m.docs u ≡ n.docs u) × (m.snaps u ≡ n.snaps u)

module _ {N B : Type 0} (libs : Libraries N B) (store : MetaStore) where
  delete-others :
      (w : World B) (u v : ℕ)
      → v == u ≡ false
      → IsSameFor u (model_of libs store (delete libs store w (guest v)).0) (model_of libs store w)
  unfolding perform
  delete-others w u v other =
      let same = model_of-perform libs store (delete_op v) w in
      (
        ap (λ m. m.docs u) same ∙ step_docs (is_ok (delete libs store w (guest v)).1),
        ap (λ m. m.snaps u) same ∙ step_snaps (is_ok (delete libs store w (guest v)).1),
      )
    where
      step_docs :
          (b : Bool)
          → (step libs w.now (delete_op v) b (model_of libs store w)).docs u
            ≡ (model_of libs store w).docs u
      step_docs true = unfold step after set_doc in rw other
      step_docs false = unfold step in refl

      step_snaps :
          (b : Bool)
          → (step libs w.now (delete_op v) b (model_of libs store w)).snaps u
            ≡ (model_of libs store w).snaps u
      step_snaps true = unfold step after set_doc in refl
      step_snaps false = unfold step in refl

  delete_snapshot-others :
      (w : World B) (u v : ℕ) (name : String)
      → v == u ≡ false
      → IsSameFor u
          (model_of libs store (delete_snapshot libs store w v name).0)
          (model_of libs store w)
  unfolding perform
  delete_snapshot-others w u v name other =
      let same = model_of-perform libs store (delete_snapshot_op v name) w in
      (
        ap (λ m. m.docs u) same ∙ step_docs (is_ok (delete_snapshot libs store w v name).1),
        ap (λ m. m.snaps u) same ∙ step_snaps (is_ok (delete_snapshot libs store w v name).1),
      )
    where
      step_docs :
          (b : Bool)
          → (step libs w.now (delete_snapshot_op v name) b (model_of libs store w)).docs u
            ≡ (model_of libs store w).docs u
      step_docs true = unfold step after set_snap in refl
      step_docs false = unfold step in refl

      step_snap :
          (b : Bool) (n : String)
          → (step libs w.now (delete_snapshot_op v name) b (model_of libs store w)).snaps u n
            ≡ (model_of libs store w).snaps u n
      step_snap true n = unfold step after set_snap in rw other
      step_snap false n = unfold step in refl

      step_snaps :
          (b : Bool)
          → (step libs w.now (delete_snapshot_op v name) b (model_of libs store w)).snaps u
            ≡ (model_of libs store w).snaps u
      step_snaps b = λ i n. step_snap b n i

  -- the document of the guest itself, which stays gone once it is
  delete_snapshot-docs :
      (w : World B) (v : ℕ) (name : String)
      → (model_of libs store (delete_snapshot libs store w v name).0).docs v
        ≡ (model_of libs store w).docs v
  unfolding perform
  delete_snapshot-docs w v name =
      ap (λ m. m.docs v) (model_of-perform libs store (delete_snapshot_op v name) w)
      ∙ step_docs (is_ok (delete_snapshot libs store w v name).1)
    where
      step_docs :
          (b : Bool)
          → (step libs w.now (delete_snapshot_op v name) b (model_of libs store w)).docs v
            ≡ (model_of libs store w).docs v
      step_docs true = unfold step after set_snap in refl
      step_docs false = unfold step in refl

  world-added : (n : ℕ) (answer : World B × Result ℕ) → (added libs store n answer).0 ≡ answer.0
  unfolding added
  world-added n (w, ok m) = refl
  world-added n (w, err e) = refl

  -- what a removal keeps, then what the rest keeps
  and_then-keeps :
      {A : Type 0} (f : World B → A) (answer : World B × Result Bool)
      (next : World B → World B × Result ℕ)
      → ((w : World B) → f (next w).0 ≡ f w)
      → f (and_then libs store answer next).0 ≡ f answer.0
  unfolding and_then
  and_then-keeps f (w, err e) next h = refl
  and_then-keeps f (w, ok there) next h = rw (world-added _ (next w)) (h w)

  purge_snapshots-keeps :
      {A : Type 0} (f : World B → A) (v : ℕ)
      → ((w : World B) (name : String) → f (delete_snapshot libs store w v name).0 ≡ f w)
      → (names : List String) (w : World B) → f (purge_snapshots libs store v names w).0 ≡ f w
  unfolding purge_snapshots
  purge_snapshots-keeps f v h [] w = refl
  purge_snapshots-keeps f v h (name ∷ names) w =
      and_then-keeps f (delete_snapshot libs store w v name) _ (purge_snapshots-keeps f v h names)
      ∙ h w name

  purge_listed-keeps :
      {A : Type 0} (f : World B → A) (v : ℕ)
      → ((w : World B) (name : String) → f (delete_snapshot libs store w v name).0 ≡ f w)
      → (names : Result (List String)) (w : World B) → f (purge_listed libs store v names w).0 ≡ f w
  unfolding purge_listed
  purge_listed-keeps f v h (ok names) w = purge_snapshots-keeps f v h names w
  purge_listed-keeps f v h (err e) w = refl

  -- Whether it succeeds or fails, the removal of all of a guest's files leaves another guest's
  -- document and snapshots as they are.
  pub purge-others :
      (w : World B) (u v : ℕ)
      → v == u ≡ false
      → IsSameFor u (model_of libs store (purge libs store w v).0) (model_of libs store w)
  unfolding purge
  purge-others w u v other = (
    and_then-keeps (λ w. (model_of libs store w).docs u) (delete libs store w (guest v)) _
          (λ w'.
            purge_listed-keeps (λ w. (model_of libs store w).docs u) v
              (λ w name. (delete_snapshot-others w u v name other).0)
              (list_snapshots libs store w' v) w')
        ∙ (delete-others w u v other).0,
    and_then-keeps (λ w. (model_of libs store w).snaps u) (delete libs store w (guest v)) _
          (λ w'.
            purge_listed-keeps (λ w. (model_of libs store w).snaps u) v
              (λ w name. (delete_snapshot-others w u v name other).1)
              (list_snapshots libs store w' v) w')
        ∙ (delete-others w u v other).1,
  )

  and_then-ok :
      (answer : World B × Result Bool) (next : World B → World B × Result ℕ) (n : ℕ)
      → (and_then libs store answer next).1 ≡ ok n
      → is_ok answer.1 ≡ true
  unfolding and_then
  and_then-ok (w, err e) next n h = absurd (cc h)
  and_then-ok (w, ok there) next n h = refl

  deleted_doc : (now v : ℕ) (m : Model B) → (step libs now (delete_op v) true m).docs v ≡ none
  unfolding step after set_doc
  deleted_doc now v m = rw ((==_iff v v).1 refl)

  delete-docs :
      (w : World B) (v : ℕ)
      → is_ok (delete libs store w (guest v)).1 ≡ true
      → (model_of libs store (delete libs store w (guest v)).0).docs v ≡ none
  unfolding perform
  delete-docs w v h =
      ap (λ m. m.docs v) (model_of-perform libs store (delete_op v) w)
      ∙ rw h (deleted_doc w.now v (model_of libs store w))

  -- A removal of all of a guest's files that succeeds leaves the guest without a document.
  pub purge-docs :
      (w : World B) (v n : ℕ)
      → (purge libs store w v).1 ≡ ok n
      → (model_of libs store (purge libs store w v).0).docs v ≡ none
  unfolding purge
  purge-docs w v n h =
      and_then-keeps (λ w. (model_of libs store w).docs v) (delete libs store w (guest v)) _
        (λ w'.
          purge_listed-keeps (λ w. (model_of libs store w).docs v) v
            (λ w name. delete_snapshot-docs w v name) (list_snapshots libs store w' v) w')
      ∙ delete-docs w v (and_then-ok (delete libs store w (guest v)) _ n h)
