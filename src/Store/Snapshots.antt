-- ===== src/Store/Snapshots.antt =====
-- Rolling a guest's document back to its snapshot, whatever has happened to it since.
use pve_meta.Shared.{
  ℕ, String, Bool, true, false, ◌&&◌, some, List, [], ◌∷◌, str_eq, eq_refl, ◌==◌, ==_iff, ◌≡◌, refl,
  sym, ap, ◌∙◌, All,
}
use pve_meta.Disk.{FilePath, Io, regular, lookup, read_node}
use pve_meta.DocId.{guest}
use pve_meta.Error.{Result, ok, err}
use pve_meta.Format.Texts.{Libraries}
use pve_meta.View.Descent.{is_ok}
use pve_meta.Store.{MetaStore, World, path_for}
use pve_meta.Store.Ops.{copied, snapshot, after_checks, rollback}
use pve_meta.Store.Spec.{
  Model, Op, put_op, delete_op, snapshot_op, rollback_op, delete_snapshot_op, set_doc, set_snap,
  copy_entry, rollback_entry, after, step, perform, model_of, run, steps,
}
use pve_meta.Store.Refines.{model_of-perform, model_of-run}

-- whether an operation is on the given snapshot itself
unfoldable pub is_on_snapshot : ℕ → String → Op → Bool
is_on_snapshot v name (snapshot_op w n) = w == v && str_eq n name
is_on_snapshot v name (delete_snapshot_op w n) = w == v && str_eq n name
is_on_snapshot v name _ = false

module _ {N B : Type 0} (libs : Libraries N B) where
  step-snaps :
      (v : ℕ) (name : String) (now : ℕ) (op : Op) (succeeded : Bool) (m : Model B)
      → is_on_snapshot v name op ≡ false
      → (step libs now op succeeded m).snaps v name ≡ m.snaps v name
  unfolding step after set_doc set_snap is_on_snapshot
  step-snaps v name now op false m h = refl
  step-snaps v name now (put_op w text expected) true m h = refl
  step-snaps v name now (delete_op w) true m h = refl
  step-snaps v name now (snapshot_op w n) true m h = rw h
  step-snaps v name now (rollback_op w n) true m h = refl
  step-snaps v name now (delete_snapshot_op w n) true m h = rw h

  steps-snaps :
      (v : ℕ) (name : String) (ops : List (ℕ × Op)) (answers : List Bool) (m : Model B)
      → All (λ o. is_on_snapshot v name o.1 ≡ false) ops
      → (steps libs ops answers m).snaps v name ≡ m.snaps v name
  unfolding steps
  steps-snaps v name [] answers m h = refl
  steps-snaps v name ((time, op) ∷ ops) [] m h = refl
  steps-snaps v name ((time, op) ∷ ops) (succeeded ∷ answers) m (h, hs) =
      steps-snaps v name ops answers (step libs time op succeeded m) hs
      ∙ step-snaps v name time op succeeded m h

module _ {N B : Type 0} (libs : Libraries N B) (store : MetaStore) where
  copied-true :
      (w : World B) (path : FilePath) (answer : Io B)
      → (copied libs store w path answer).1 ≡ ok true
      → (bytes : B) × (answer ≡ Io.done bytes)
  unfolding copied
  copied-true w path (Io.done bytes) h = (bytes, refl)
  copied-true w path Io.gone h = absurd (cc h)
  copied-true w path (Io.failed msg) h = absurd (cc h)

  checked :
      {A : Type 0} (checks : Result (Unit {0})) (w : World B) (answer : World B × Result A) (a : A)
      → (after_checks libs store checks w answer).1 ≡ ok a
      → answer.1 ≡ ok a
  unfolding after_checks
  checked (ok done) w answer a h = h
  checked (err e) w answer a h = absurd (cc h)

  snapshot-bytes :
      (w : World B) (v : ℕ) (name : String)
      → (snapshot libs store w v name).1 ≡ ok true
      → (bytes : B) × (read_node (lookup (path_for libs store (guest v)) w.disk) ≡ Io.done bytes)
  unfolding snapshot
  snapshot-bytes w v name h = copied-true w _ _ (checked _ w _ true h)

  snapped_entry :
      (now v : ℕ) (name : String) (m : Model B) (bytes : B)
      → read_node (m.docs v) ≡ Io.done bytes
      → (step libs now (snapshot_op v name) true m).snaps v name ≡ some (regular bytes now)
  unfolding step after set_snap copy_entry
  snapped_entry now v name m bytes there = rw (there, (==_iff v v).1 refl, eq_refl name)

  rolled_entry :
      (now v : ℕ) (name : String) (m : Model B) (bytes : B) (time : ℕ)
      → m.snaps v name ≡ some (regular bytes time)
      → (step libs now (rollback_op v name) true m).docs v ≡ some (regular bytes now)
  unfolding step after set_doc rollback_entry
  rolled_entry now v name m bytes time there = rw (there, (==_iff v v).1 refl)

  snapshot_entry :
      (w : World B) (v : ℕ) (name : String) (bytes : B)
      → (snapshot libs store w v name).1 ≡ ok true
      → read_node (lookup (path_for libs store (guest v)) w.disk) ≡ Io.done bytes
      → (model_of libs store (snapshot libs store w v name).0).snaps v name
        ≡ some (regular bytes w.now)
  unfolding perform
  snapshot_entry w v name bytes h there =
      ap (λ m. m.snaps v name) (model_of-perform libs store (snapshot_op v name) w)
      ∙ rw h (snapped_entry w.now v name (model_of libs store w) bytes (unfold model_of in there))

  rollback_entry_of :
      (w : World B) (v : ℕ) (name : String) (bytes : B) (time : ℕ)
      → is_ok (rollback libs store w v name).1 ≡ true
      → (model_of libs store w).snaps v name ≡ some (regular bytes time)
      → (model_of libs store (rollback libs store w v name).0).docs v ≡ some (regular bytes w.now)
  unfolding perform
  rollback_entry_of w v name bytes time h there =
      ap (λ m. m.docs v) (model_of-perform libs store (rollback_op v name) w)
      ∙ rw h (rolled_entry w.now v name (model_of libs store w) bytes time there)

  docs_of :
      (w : World B) (v : ℕ)
      → (model_of libs store w).docs v ≡ lookup (path_for libs store (guest v)) w.disk
  unfolding model_of
  docs_of w v = refl

  -- A guest's document is snapshotted, then any operations run, of which none is on that snapshot
  -- itself, and then a rollback to it succeeds: the document's file reads as it did at the snapshot.
  pub rollback-snapshot :
      (w : World B) (v : ℕ) (name : String) (ops : List (ℕ × Op))
      → (snapshot libs store w v name).1 ≡ ok true
      → All (λ op. is_on_snapshot v name op.1 ≡ false) ops
      → is_ok (rollback libs store (run libs store ops (snapshot libs store w v name).0).0 v name).1
        ≡ true
      → read_node (
          lookup
            (path_for libs store (guest v))
            (rollback libs store
              (run libs store ops (snapshot libs store w v name).0).0
              v
              name).0.disk)
        ≡ read_node (lookup (path_for libs store (guest v)) w.disk)
  rollback-snapshot w v name ops taken spared restored =
      let (bytes, there) = snapshot-bytes w v name taken in
      let w₁ = (snapshot libs store w v name).0 in
      let w₂ = (run libs store ops w₁).0 in
      let kept : (model_of libs store w₂).snaps v name ≡ some (regular bytes w.now) =
        ap (λ m. m.snaps v name) (model_of-run libs store ops w₁)
        ∙ (steps-snaps libs v name ops _ _ spared ∙ snapshot_entry w v name bytes taken there) in
      let back = rollback_entry_of w₂ v name bytes w.now restored kept in
      let reads : read_node ((model_of libs store (rollback libs store w₂ v name).0).docs v)
          ≡ Io.done bytes =
        rw back (unfold read_node in refl) in
      ap read_node (sym (docs_of (rollback libs store w₂ v name).0 v)) ∙ reads ∙ sym there
