-- ===== src/Store/Spec.antt =====
-- What a store of guest documents promises: documents and snapshots by number and name, and what
-- each operation of store.rs leaves of them.
use pve_meta.Shared.{
  ℕ, String, Bool, ◌&&◌, Option, none, some, List, [], ◌∷◌, str_eq, if◌then◌else◌, ◌==◌,
}
use pve_meta.Disk.{Io, Node, regular, lookup, read_node}
use pve_meta.DocId.{guest}
use pve_meta.Format.Texts.{Libraries, normalize_trailing_newline}
use pve_meta.View.Descent.{is_ok}
use pve_meta.Store.{MetaStore, World, path_for, snapshot_path}
use pve_meta.Store.Ops.{put_raw, delete, snapshot, rollback, delete_snapshot}

-- The documents and the snapshots, each the entry of a file.
pub record Model (B : Type 0) : Type 0 where
  pub docs : ℕ → Option (Node B)
  pub snaps : ℕ → String → Option (Node B)

pub data Op : Type 0 where
  put_op : ℕ → String → Option String → Op
  delete_op : ℕ → Op
  snapshot_op rollback_op delete_snapshot_op : ℕ → String → Op

module _ {B : Type 0} where
  unfoldable pub set_doc : ℕ → Option (Node B) → Model B → Model B
  set_doc v entry m = record m { docs = λ w. if v == w then entry else m.docs w }

  unfoldable pub set_snap : ℕ → String → Option (Node B) → Model B → Model B
  set_snap v name entry m = record m {
    snaps = λ w n. if v == w && str_eq name n then entry else m.snaps w n;
  }

  -- the entry that a copy of the answer's bytes makes at a time, or what was there
  unfoldable pub copy_entry : Option (Node B) → ℕ → Io B → Option (Node B)
  copy_entry before now (Io.done bytes) = some (regular bytes now)
  copy_entry before now Io.gone = before
  copy_entry before now (Io.failed msg) = before

  -- the entry of a document that is rolled back
  unfoldable pub rollback_entry : ℕ → Option (Node B) → Option (Node B)
  rollback_entry now none = none
  rollback_entry now (some (regular bytes time)) = some (regular bytes now)
  rollback_entry now (some other) = some other

module _ {N B : Type 0} (libs : Libraries N B) where
  -- what an operation that succeeds at a time makes of the model
  unfoldable pub after : ℕ → Op → Model B → Model B
  unfolding set_doc set_snap copy_entry rollback_entry
  after now (put_op v text expected) m =
      set_doc v (some (regular (libs.bytes_of (normalize_trailing_newline text)) now)) m
  after now (delete_op v) m = set_doc v none m
  after now (snapshot_op v name) m =
      set_snap v name (copy_entry (m.snaps v name) now (read_node (m.docs v))) m
  after now (rollback_op v name) m = set_doc v (rollback_entry now (m.snaps v name)) m
  after now (delete_snapshot_op v name) m = set_snap v name none m

  -- A step of the specification: an operation that fails changes nothing.
  unfoldable pub step : ℕ → Op → Bool → Model B → Model B
  step now op succeeded m = let m' = after now op m in if succeeded then m' else m

module _ {N B : Type 0} (libs : Libraries N B) (store : MetaStore) where
  unfoldable pub perform : Op → World B → World B × Bool
  perform (put_op v text expected) w =
      let answer = put_raw libs store w (guest v) text expected in (answer.0, is_ok answer.1)
  perform (delete_op v) w = let answer = delete libs store w (guest v) in (answer.0, is_ok answer.1)
  perform (snapshot_op v name) w =
      let answer = snapshot libs store w v name in (answer.0, is_ok answer.1)
  perform (rollback_op v name) w =
      let answer = rollback libs store w v name in (answer.0, is_ok answer.1)
  perform (delete_snapshot_op v name) w =
      let answer = delete_snapshot libs store w v name in (answer.0, is_ok answer.1)

  -- the documents and the snapshots that a world's disk holds
  unfoldable pub model_of : World B → Model B
  model_of w = record {
    docs = λ v. lookup (path_for libs store (guest v)) w.disk;
    snaps = λ v n. lookup (snapshot_path libs store v n) w.disk;
  }

  -- A run of operations, each at its time.
  unfoldable pub run : List (ℕ × Op) → World B → World B × List Bool
  unfolding perform
  run [] w = (w, [])
  run ((time, op) ∷ ops) w =
      let answer = perform op (record w { now = time }) in
      let rest = run ops answer.0 in (rest.0, answer.1 ∷ rest.1)

module _ {N B : Type 0} (libs : Libraries N B) where
  -- the same run of the specification, given which operations succeeded
  unfoldable pub steps : List (ℕ × Op) → List Bool → Model B → Model B
  steps [] answers m = m
  steps (op ∷ ops) [] m = m
  steps ((time, op) ∷ ops) (succeeded ∷ answers) m =
      steps ops answers (step libs time op succeeded m)
