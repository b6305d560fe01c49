-- ===== src/Format/Scan.antt =====
-- The scan of a YAML text before it is parsed (`scan_yaml_safety` of
-- crates/pve-meta-core/src/format.rs), over the events of the parser.
pub mod Trees
use pve_meta.Shared.{ℕ, ◌+◌, String, Bool, true, false, not, some, List, [], ◌∷◌}
use pve_meta.Format.{yaml}
use pve_meta.Error.{Error, Location, Result, ok, err, ◌>>=◌, ◌>>◌}

-- a place in the text: the line from 1, the column from 0
pub record Marker : Type 0 where
  pub line : ℕ
  pub col : ℕ

-- `at_marker`
unfoldable pub at_marker : Marker → Location
at_marker m = record { line = m.line; column = m.col + 1 }

-- Of an anchor and a tag the scan only asks whether there is one.
pub data Event : Type 0 where
  alias_to : Event
  scalar sequence_start mapping_start : Bool → Bool → Event
  sequence_end mapping_end : Event
  nothing stream_start stream_end document_start document_end : Event

-- what the parser gives: an event at a place, or its error
pub data ScanItem : Type 0 where
  event : Event → Marker → ScanItem
  broken : String → Marker → ScanItem

pub data Ctx : Type 0 where
  in_seq : Ctx
  in_map : Bool → Ctx

unfoldable pub yaml_err {ℓ} : {A : Type ℓ} → String → Location → Result A
yaml_err msg place = err (Error.parse yaml msg (some place))

unfoldable pub note_child : List Ctx → List Ctx
note_child (in_map expect_key ∷ stack) = in_map (not expect_key) ∷ stack
note_child stack = stack

unfoldable pub reject_if_key_position : List Ctx → Location → Result (Unit {0})
unfolding yaml_err
reject_if_key_position (in_map true ∷ stack) place =
    yaml_err "non-string (complex) mapping keys are not allowed" place
reject_if_key_position stack place = ok tt

unfoldable pub reject_marked : Bool → Bool → Location → Result (Unit {0})
unfolding yaml_err
reject_marked true has_tag place = yaml_err "YAML anchors are not allowed" place
reject_marked false true place = yaml_err "YAML explicit tags are not allowed" place
reject_marked false false place = ok tt

pop : List Ctx → List Ctx
pop [] = []
pop (ctx ∷ stack) = stack

-- the stack after an event
unfoldable pub scan_event : Event → Location → List Ctx → Result (List Ctx)
unfolding pop
scan_event alias_to place stack = yaml_err "YAML aliases are not allowed" place
scan_event (scalar anchored has_tag) place stack =
    reject_marked anchored has_tag place >> ok (note_child stack)
scan_event (sequence_start anchored has_tag) place stack =
    reject_marked anchored has_tag place
    >> (reject_if_key_position stack place >> ok (in_seq ∷ stack))
scan_event sequence_end place stack = ok (note_child (pop stack))
scan_event (mapping_start anchored has_tag) place stack =
    reject_marked anchored has_tag place
    >> (reject_if_key_position stack place >> ok (in_map true ∷ stack))
scan_event mapping_end place stack = ok (note_child (pop stack))
scan_event _ place stack = ok stack

-- the loop of `scan_yaml_safety`
unfoldable pub scan : List ScanItem → List Ctx → Result (Unit {0})
scan [] stack = ok tt
scan (event e m ∷ items) stack = scan_event e (at_marker m) stack >>= λ stack'. scan items stack'
scan (broken msg m ∷ items) stack = yaml_err msg (at_marker m)

unfoldable pub scan_yaml_safety : List ScanItem → Result (Unit {0})
scan_yaml_safety items = scan items []
