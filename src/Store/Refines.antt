-- ===== src/Store/Refines.antt =====
-- Each operation of the store does to its documents and snapshots what the specification says.
use pve_meta.Shared.{
  ℕ, String, Bool, true, false, Option, none, some, List, [], ◌∷◌, eq_iff, if◌then◌else◌, ◌≡◌, refl,
  sym, ap, ◌∙◌, arith,
}
use pve_meta.Json.{Value}
use pve_meta.Disk.{gone_is_none, FilePath, Io, Node, regular, lookup, read_node, meta_node}
use pve_meta.Disk.Laws.{same_path_refl}
use pve_meta.DocId.{DocId, guest}
use pve_meta.Error.{Result, ok, err}
use pve_meta.Format.Texts.{Libraries, normalize_trailing_newline}
use pve_meta.View.Descent.{is_ok}
use pve_meta.Store.{MetaStore, World, path_for, snapshot_path}
use pve_meta.Store.Ops.{
  write_atomic, remove_path, document_written, put_accepted, put_raw, delete, as_true, copied,
  snapshot, as_restored, as_removed, rolled_back, rollback, delete_snapshot, after_checks,
}
use pve_meta.Store.Writes.{lookup-write_atomic, lookup-remove_path}
use pve_meta.Store.Names.{
  guest-IsVisible, snapshot-IsVisible, same_path-guest, same_path-snapshot,
  same_path-guest_snapshot, same_path-snapshot_guest,
}
use pve_meta.Store.Spec.{
  Model, Op, put_op, delete_op, snapshot_op, rollback_op, delete_snapshot_op, set_doc, set_snap,
  copy_entry, rollback_entry, after, step, perform, model_of, run, steps,
}

model_eq :
    {B : Type 0} (m n : Model B)
    → ((v : ℕ) → m.docs v ≡ n.docs v)
    → ((v : ℕ) (name : String) → m.snaps v name ≡ n.snaps v name)
    → m ≡ n
model_eq m n h k = λ i. record { docs = λ v. h v i; snaps = λ v name. k v name i }

by_outcome :
    {B : Type 0} (b : Bool) (m n o : Model B)
    → ((v : ℕ) → m.docs v ≡ (if b then n.docs v else o.docs v))
    → ((v : ℕ) (name : String) → m.snaps v name ≡ (if b then n.snaps v name else o.snaps v name))
    → m ≡ (if b then n else o)
by_outcome true m n o h k = model_eq m n h k
by_outcome false m n o h k = model_eq m o h k

set_snap_same :
    {B : Type 0} (v : ℕ) (name : String) (e : Option (Node B)) (m : Model B)
    → m.snaps v name ≡ e
    → set_snap v name e m ≡ m
unfolding set_snap
set_snap_same v name e m h =
    model_eq _ m (λ u. refl) (λ u n. ground (arith, eq_iff name n, same_snap u n))
  where
    same_snap : (u : ℕ) (n : String) → v ≡ u → name ≡ n → m.snaps u n ≡ e
    same_snap u n p q = cc

module _ {N B : Type 0} (libs : Libraries N B) (store : MetaStore) where
  -- an answer that leaves the given model if it is a success, and the world's own if not
  Leaves : {A : Type 0} → World B → Model B → World B × Result A → Type 0
  Leaves w m answer =
      model_of libs store answer.0 ≡ (if is_ok answer.1 then m else model_of libs store w)

  doc_path : ℕ → FilePath
  doc_path v = path_for libs store (guest v)

  write_doc :
      (w : World B) (v : ℕ) (bytes : B)
      → Leaves w
          (set_doc v (some (regular bytes w.now)) (model_of libs store w))
          (write_atomic libs store w (path_for libs store (guest v)) bytes)
  unfolding Leaves set_doc model_of
  write_doc w v bytes =
      let target = path_for libs store (guest v) in
      by_outcome (is_ok (write_atomic libs store w target bytes).1) _ _ _
        (λ u.
          lookup-write_atomic libs store w target (path_for libs store (guest u)) bytes
            (guest-IsVisible libs store u)
          ∙ rw (same_path-guest libs store v u) (ground arith))
        (λ u n.
          lookup-write_atomic libs store w target (snapshot_path libs store u n) bytes
            (snapshot-IsVisible libs store u n)
          ∙ rw (same_path-guest_snapshot libs store v u n) (ground arith))

  write_snap :
      (w : World B) (v : ℕ) (name : String) (bytes : B)
      → Leaves w
          (set_snap v name (some (regular bytes w.now)) (model_of libs store w))
          (write_atomic libs store w (snapshot_path libs store v name) bytes)
  unfolding Leaves set_snap model_of
  write_snap w v name bytes =
      let target = snapshot_path libs store v name in
      by_outcome (is_ok (write_atomic libs store w target bytes).1) _ _ _
        (λ u.
          lookup-write_atomic libs store w target (path_for libs store (guest u)) bytes
            (guest-IsVisible libs store u)
          ∙ rw (same_path-snapshot_guest libs store u v name) (ground arith))
        (λ u n.
          lookup-write_atomic libs store w target (snapshot_path libs store u n) bytes
            (snapshot-IsVisible libs store u n)
          ∙ rw (same_path-snapshot libs store v u name n) (ground arith))

  remove_doc :
      (w : World B) (v : ℕ)
      → Leaves w
          (set_doc v none (model_of libs store w))
          (remove_path libs store w (path_for libs store (guest v)))
  unfolding Leaves set_doc model_of
  remove_doc w v =
      let target = path_for libs store (guest v) in
      by_outcome (is_ok (remove_path libs store w target).1) _ _ _
        (λ u.
          lookup-remove_path libs store w target (path_for libs store (guest u))
          ∙ rw (same_path-guest libs store v u) (ground arith))
        (λ u n.
          lookup-remove_path libs store w target (snapshot_path libs store u n)
          ∙ rw (same_path-guest_snapshot libs store v u n) (ground arith))

  remove_snap :
      (w : World B) (v : ℕ) (name : String)
      → Leaves w
          (set_snap v name none (model_of libs store w))
          (remove_path libs store w (snapshot_path libs store v name))
  unfolding Leaves set_snap model_of
  remove_snap w v name =
      let target = snapshot_path libs store v name in
      by_outcome (is_ok (remove_path libs store w target).1) _ _ _
        (λ u.
          lookup-remove_path libs store w target (path_for libs store (guest u))
          ∙ rw (same_path-snapshot_guest libs store u v name) (ground arith))
        (λ u n.
          lookup-remove_path libs store w target (snapshot_path libs store u n)
          ∙ rw (same_path-snapshot libs store v u name n) (ground arith))

  Leaves-after_checks :
      {A : Type 0} (w : World B) (m : Model B) (checks : Result (Unit {0}))
      (answer : World B × Result A)
      → Leaves w m answer
      → Leaves w m (after_checks libs store checks w answer)
  unfolding Leaves after_checks
  Leaves-after_checks w m (ok done) answer h = h
  Leaves-after_checks w m (err e) answer h = refl

  Leaves-as_true :
      (w : World B) (m : Model B) (answer : World B × Result (Unit {0}))
      → Leaves w m answer
      → Leaves w m (as_true libs store answer)
  unfolding Leaves as_true
  Leaves-as_true w m (w', ok done) h = h
  Leaves-as_true w m (w', err e) h = h

  Leaves-as_restored :
      (w : World B) (m : Model B) (answer : World B × Result (Unit {0}))
      → Leaves w m answer
      → Leaves w m (as_restored libs store answer)
  unfolding Leaves as_restored
  Leaves-as_restored w m (w', ok done) h = h
  Leaves-as_restored w m (w', err e) h = h

  Leaves-as_removed :
      (w : World B) (m : Model B) (answer : World B × Result Bool)
      → Leaves w m answer
      → Leaves w m (as_removed libs store answer)
  unfolding Leaves as_removed
  Leaves-as_removed w m (w', ok true) h = h
  Leaves-as_removed w m (w', ok false) h = h
  Leaves-as_removed w m (w', err e) h = h

  Leaves-copied :
      (w : World B) (v : ℕ) (name : String) (answer : Io B)
      → Leaves w
          (set_snap v name
            (copy_entry (lookup (snapshot_path libs store v name) w.disk) w.now answer)
            (model_of libs store w))
          (copied libs store w (snapshot_path libs store v name) answer)
  unfolding copied copy_entry
  Leaves-copied w v name (Io.done bytes) = Leaves-as_true w _ _ (write_snap w v name bytes)
  Leaves-copied w v name Io.gone =
      unfold Leaves model_of in sym (set_snap_same v name _ (model_of libs store w) refl)
  Leaves-copied w v name (Io.failed msg) = unfold Leaves in refl

  Leaves-rolled_back :
      (w : World B) (v : ℕ) (o : Option (Node B))
      → Leaves w
          (set_doc v (rollback_entry w.now o) (model_of libs store w))
          (rolled_back libs store w (path_for libs store (guest v)) (read_node o))
  unfolding rolled_back rollback_entry read_node
  Leaves-rolled_back w v none = Leaves-as_removed w _ _ (remove_doc w v)
  Leaves-rolled_back w v (some (Node.regular bytes time)) =
      Leaves-as_restored w _ _ (write_doc w v bytes)
  Leaves-rolled_back w v (some Node.directory) = unfold Leaves in refl
  Leaves-rolled_back w v (some (Node.failing msg)) = unfold Leaves in refl

  Leaves-document_written :
      (w : World B) (m : Model B) (id : DocId) (path : FilePath) (raw : String) (value : Value N)
      (bytes : B) (answer : World B × Result (Unit {0}))
      → (is_ok answer.1 ≡ true → lookup path answer.0.disk ≡ some (regular bytes w.now))
      → Leaves w m answer
      → Leaves w m (document_written libs store id path raw value answer)
  unfolding Leaves document_written meta_node gone_is_none
  Leaves-document_written w m id path raw value bytes (w', ok done) there h = rw (there refl) h
  Leaves-document_written w m id path raw value bytes (w', err e) there h = h

  pub written_there :
      (w : World B) (v : ℕ) (bytes : B)
      → is_ok (write_atomic libs store w (path_for libs store (guest v)) bytes).1 ≡ true
      → lookup
          (path_for libs store (guest v))
          (write_atomic libs store w (path_for libs store (guest v)) bytes).0.disk
        ≡ some (regular bytes w.now)
  written_there w v bytes done =
      let target = path_for libs store (guest v) in
      lookup-write_atomic libs store w target target bytes (guest-IsVisible libs store v)
      ∙ rw (done, same_path_refl target)

  Leaves-put_accepted :
      (w : World B) (v : ℕ) (raw : String) (accepted : Result (Value N))
      → Leaves w
          (set_doc v (some (regular (libs.bytes_of raw) w.now)) (model_of libs store w))
          (put_accepted libs store w (guest v) raw accepted)
  unfolding put_accepted
  Leaves-put_accepted w v raw (err e) = unfold Leaves in refl
  Leaves-put_accepted w v raw (ok value) =
      let bytes = libs.bytes_of raw in
      Leaves-document_written w _ (guest v) (path_for libs store (guest v)) raw value bytes
        (write_atomic libs store w (path_for libs store (guest v)) bytes) (written_there w v bytes)
        (write_doc w v bytes)

  -- Each operation on a guest's documents and snapshots, whether it succeeds or fails, leaves the
  -- documents and the snapshots that the specification's step gives for that outcome: all of them,
  -- also those that the operation is not about.
  pub model_of-perform :
      (op : Op) (w : World B)
      → model_of libs store (perform libs store op w).0
        ≡ step libs w.now op (perform libs store op w).1 (model_of libs store w)
  unfolding perform step after
  model_of-perform (put_op v text expected) w =
      unfold put_raw Leaves in Leaves-put_accepted w v (normalize_trailing_newline text) _
  model_of-perform (delete_op v) w =
      unfold delete Leaves in Leaves-after_checks w _ _ _ (remove_doc w v)
  model_of-perform (snapshot_op v name) w =
      unfold snapshot Leaves model_of in Leaves-after_checks w _ _ _ (Leaves-copied w v name _)
  model_of-perform (rollback_op v name) w =
      unfold rollback Leaves model_of in Leaves-after_checks w _ _ _ (Leaves-rolled_back w v _)
  model_of-perform (delete_snapshot_op v name) w =
      unfold delete_snapshot Leaves in Leaves-after_checks w _ _ _ (remove_snap w v name)

  -- After any run of operations the documents and the snapshots are those that the specification
  -- gives for the same operations and outcomes.
  pub model_of-run :
      (ops : List (ℕ × Op)) (w : World B)
      → model_of libs store (run libs store ops w).0
        ≡ steps libs ops (run libs store ops w).1 (model_of libs store w)
  unfolding run steps model_of
  model_of-run [] w = refl
  model_of-run ((time, op) ∷ ops) w =
      let w' = record w { now = time } in
      let answer = perform libs store op w' in
      model_of-run ops answer.0
      ∙ ap (steps libs ops (run libs store ops answer.0).1) (model_of-perform op w')
