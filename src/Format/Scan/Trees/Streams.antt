-- ===== src/Format/Scan/Trees/Streams.antt =====
-- The scan against whole streams of documents, from the parser's first event to its last.
use pve_meta.Shared.{Bool, true, false, ◌&&◌, ◌||◌, List, [], ◌∷◌, all, ◌≡◌, refl, ◌∙◌}
use pve_meta.View.Descent.{is_ok}
use pve_meta.Format.Scan.{
  Marker, stream_start, stream_end, document_start, document_end, ScanItem, event, Ctx, note_child,
  scan_event, scan, scan_yaml_safety,
}
use pve_meta.Format.Scan.Trees.{Tree, events, is_leaf, is_plain, fits, at_key, scan-events}

-- a document of a stream: where it begins and ends, and its tree
pub record YamlDocument : Type 0 where
  pub begins : Marker
  pub ends : Marker
  pub root : Tree

-- what the parser gives for the documents of a stream, before what follows
unfoldable pub document_events : List YamlDocument → List ScanItem → List ScanItem
document_events [] rest = rest
document_events (d ∷ ds) rest =
    event document_start d.begins
    ∷ events d.root (event document_end d.ends ∷ document_events ds rest)

-- what the parser gives for a whole stream
unfoldable pub stream : Marker → Marker → List YamlDocument → List ScanItem
stream begins ends ds = event stream_start begins ∷ document_events ds (event stream_end ends ∷ [])

scan-document_start :
    (m : Marker) (items : List ScanItem) (stack : List Ctx)
    → scan (event document_start m ∷ items) stack ≡ scan items stack
unfolding scan scan_event
scan-document_start m items stack = refl

scan-document_end :
    (m : Marker) (items : List ScanItem) (stack : List Ctx)
    → scan (event document_end m ∷ items) stack ≡ scan items stack
unfolding scan scan_event
scan-document_end m items stack = refl

document_test :
    (plain whole others r : Bool)
    → ((plain && (true || whole)) && (others && r)) ≡ ((plain && others) && r)
document_test true whole others r = refl
document_test false whole others r = refl

scan-document_events :
    (ds : List YamlDocument) (rest : List ScanItem)
    → is_ok (scan (document_events ds rest) [])
      ≡ (all (λ d. is_plain d.root) ds && is_ok (scan rest []))
unfolding document_events fits at_key note_child
scan-document_events [] rest = refl
scan-document_events (d ∷ ds) rest =
    rw
      (
        scan-document_start d.begins _ [],
        scan-events d.root (event document_end d.ends ∷ document_events ds rest) [],
        scan-document_end d.ends (document_events ds rest) [],
        scan-document_events ds rest,
      )
      (document_test (is_plain d.root) (is_leaf d.root) (all (λ d. is_plain d.root) ds) _)

and_true : (b : Bool) → (b && true) ≡ b
and_true true = refl
and_true false = refl

-- The scan lets a whole stream pass, from its start to its end, exactly if in each of its documents no
-- node is an alias, has an anchor or has a tag, and every key is a scalar.
pub scan_yaml_safety-stream :
    (begins ends : Marker) (ds : List YamlDocument)
    → is_ok (scan_yaml_safety (stream begins ends ds)) ≡ all (λ d. is_plain d.root) ds
unfolding scan_yaml_safety stream scan scan_event
scan_yaml_safety-stream begins ends ds =
    scan-document_events ds (event stream_end ends ∷ []) ∙ and_true (all (λ d. is_plain d.root) ds)
