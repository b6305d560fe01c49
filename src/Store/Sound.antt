-- ===== src/Store/Sound.antt =====
-- What every file that the store itself has written keeps to.
use pve_meta.Shared.{
  ℕ, ◌≤◌, String, Bool, true, false, ◌&&◌, Option, none, some, List, [], ◌∷◌, str_eq, if◌then◌else◌,
  ◌==◌, ◌≡◌, refl, sym, ap, ◌∙◌,
}
use pve_meta.Json.{Value}
use pve_meta.Disk.{Node, regular, read_node}
use pve_meta.DocId.{guest}
use pve_meta.Error.{Result, ok, err}
use pve_meta.Format.Texts.{Libraries, normalize_trailing_newline, parse_raw}
use pve_meta.Model.{lint}
use pve_meta.View.Descent.{is_ok}
use pve_meta.Store.{MetaStore, World, max_bytes, disk_format}
use pve_meta.Store.Ops.{put_raw}
use pve_meta.Store.Spec.{
  Model, Op, put_op, delete_op, snapshot_op, rollback_op, delete_snapshot_op, set_doc, set_snap,
  copy_entry, rollback_entry, after, step, perform, model_of, run,
}
use pve_meta.Store.Refines.{model_of-perform}
use pve_meta.Store.Contents.{accepted, put_raw-ok}
use pve_meta.Store.Visible.{parse-parse_raw}

module _ {N B : Type 0} (libs : Libraries N B) where
  -- Bytes of a text of an allowed size that parses, into a value that the lint passes.
  unfoldable pub IsAllowed : B → Type 0
  IsAllowed bytes =
      (raw : String) × (value : Value N) × (bytes ≡ libs.bytes_of raw)
      × (libs.size bytes ≤ max_bytes)
      × (parse_raw libs disk_format raw ≡ ok value)
      × (lint value ≡ [])

  unfoldable pub IsSoundEntry : Option (Node B) → Type 0
  unfolding IsAllowed
  IsSoundEntry (some (regular bytes time)) = IsAllowed bytes
  IsSoundEntry _ = Unit

  unfoldable pub IsSound : Model B → Type 0
  unfolding IsSoundEntry
  IsSound m =
      ((v : ℕ) → IsSoundEntry (m.docs v))
      × ((v : ℕ) (name : String) → IsSoundEntry (m.snaps v name))

  sound_doc : (m : Model B) → IsSound m → (v : ℕ) → IsSoundEntry (m.docs v)
  unfolding IsSound
  sound_doc m h v = h.0 v

  sound_snap : (m : Model B) → IsSound m → (v : ℕ) (name : String) → IsSoundEntry (m.snaps v name)
  unfolding IsSound
  sound_snap m h v name = h.1 v name

  sound_if :
      (b : Bool) (x y : Option (Node B))
      → IsSoundEntry x
      → IsSoundEntry y
      → IsSoundEntry (if b then x else y)
  sound_if true x y h k = h
  sound_if false x y h k = k

  IsSound-set_doc :
      (v : ℕ) (entry : Option (Node B)) (m : Model B)
      → IsSoundEntry entry
      → IsSound m
      → IsSound (set_doc v entry m)
  unfolding set_doc IsSound
  IsSound-set_doc v entry m h (docs, snaps) =
      (λ u. sound_if (v == u) entry (m.docs u) h (docs u), snaps)

  IsSound-set_snap :
      (v : ℕ) (name : String) (entry : Option (Node B)) (m : Model B)
      → IsSoundEntry entry
      → IsSound m
      → IsSound (set_snap v name entry m)
  unfolding set_snap IsSound
  IsSound-set_snap v name entry m h (docs, snaps) =
      (docs, λ u n. sound_if (v == u && str_eq name n) entry (m.snaps u n) h (snaps u n))

  sound_copy :
      (before source : Option (Node B)) (now : ℕ)
      → IsSoundEntry before
      → IsSoundEntry source
      → IsSoundEntry (copy_entry before now (read_node source))
  unfolding copy_entry read_node IsSoundEntry
  sound_copy before none now h k = h
  sound_copy before (some (Node.regular bytes time)) now h k = k
  sound_copy before (some Node.directory) now h k = h
  sound_copy before (some (Node.failing msg)) now h k = h

  sound_rollback :
      (now : ℕ) (snap : Option (Node B))
      → IsSoundEntry snap
      → IsSoundEntry (rollback_entry now snap)
  unfolding rollback_entry IsSoundEntry
  sound_rollback now none h = tt
  sound_rollback now (some (Node.regular bytes time)) h = h
  sound_rollback now (some Node.directory) h = tt
  sound_rollback now (some (Node.failing msg)) h = tt

  -- A successful operation keeps soundness if what it puts is allowed.
  IsSound-step :
      (now : ℕ) (op : Op) (succeeded : Bool) (m : Model B)
      → ((v : ℕ) (text : String) (expected : Option String)
          → op ≡ put_op v text expected
          → succeeded ≡ true
          → IsAllowed (libs.bytes_of (normalize_trailing_newline text)))
      → IsSound m
      → IsSound (step libs now op succeeded m)
  unfolding step after
  IsSound-step now op false m allowed h = h
  IsSound-step now (put_op v text expected) true m allowed h =
      IsSound-set_doc v _ m (unfold IsSoundEntry in allowed v text expected refl refl) h
  IsSound-step now (delete_op v) true m allowed h =
      IsSound-set_doc v none m (unfold IsSoundEntry in tt) h
  IsSound-step now (snapshot_op v name) true m allowed h =
      IsSound-set_snap v name _ m
        (sound_copy (m.snaps v name) (m.docs v) now (sound_snap m h v name) (sound_doc m h v)) h
  IsSound-step now (rollback_op v name) true m allowed h =
      IsSound-set_doc v _ m (sound_rollback now (m.snaps v name) (sound_snap m h v name)) h
  IsSound-step now (delete_snapshot_op v name) true m allowed h =
      IsSound-set_snap v name none m (unfold IsSoundEntry in tt) h

module _ {N B : Type 0} (libs : Libraries N B) (store : MetaStore) where
  ok_of : {A : Type 0} (r : Result A) → is_ok r ≡ true → (a : A) × (r ≡ ok a)
  ok_of (ok a) h = (a, refl)
  ok_of (err e) h = absurd (cc h)

  put_raw-IsAllowed :
      (w : World B) (v : ℕ) (text : String) (expected : Option String)
      → is_ok (put_raw libs store w (guest v) text expected).1 ≡ true
      → IsAllowed libs (libs.bytes_of (normalize_trailing_newline text))
  put_raw-IsAllowed w v text expected h =
      let (d, d_eq) = ok_of (put_raw libs store w (guest v) text expected).1 h in
      let (value, acceptance, _, _) = put_raw-ok libs store w v text expected d d_eq in
      let (_, _, _, fits, parsed) =
        accepted libs store w (guest v) (normalize_trailing_newline text) expected value
          acceptance in
      let (parsed_raw, clean) =
        parse-parse_raw libs store (normalize_trailing_newline text) value parsed in
      unfold IsAllowed in (normalize_trailing_newline text, value, refl, fits, parsed_raw, clean)

  put_op-IsAllowed :
      (op : Op) (w : World B) (v : ℕ) (text : String) (expected : Option String)
      → op ≡ put_op v text expected
      → (perform libs store op w).1 ≡ true
      → IsAllowed libs (libs.bytes_of (normalize_trailing_newline text))
  unfolding perform
  put_op-IsAllowed op w v text expected is_put h =
      performed (ap (λ op. (perform libs store op w).1) (sym is_put) ∙ h)
    where
      performed :
          (perform libs store (put_op v text expected) w).1 ≡ true
          → IsAllowed libs (libs.bytes_of (normalize_trailing_newline text))
      performed k = put_raw-IsAllowed w v text expected k

  -- If every document and snapshot that is a regular file holds a text of at most 512 KiB that parses
  -- into a value without lints, then so it is after an operation, whether that succeeds or fails.
  pub perform-IsSound :
      (op : Op) (w : World B)
      → IsSound libs (model_of libs store w)
      → IsSound libs (model_of libs store (perform libs store op w).0)
  perform-IsSound op w h =
      rw (model_of-perform libs store op w)
        (IsSound-step libs w.now op _ (model_of libs store w) (put_op-IsAllowed op w) h)

  -- If every document and snapshot that is a regular file holds a text of at most 512 KiB that parses
  -- into a value without lints, then so it is after any run of the store's operations.
  pub run-IsSound :
      (ops : List (ℕ × Op)) (w : World B)
      → IsSound libs (model_of libs store w)
      → IsSound libs (model_of libs store (run libs store ops w).0)
  unfolding run
  run-IsSound [] w h = h
  run-IsSound ((time, op) ∷ ops) w h =
      run-IsSound ops _ (perform-IsSound op (record w { now = time }) (unfold model_of in h))
