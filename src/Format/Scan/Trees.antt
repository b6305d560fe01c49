-- ===== src/Format/Scan/Trees.antt =====
-- The scan against the documents themselves: trees, and the events that the parser gives for them.
pub mod Streams
use pve_meta.Shared.{
  Bool, true, false, not, ◌&&◌, ◌||◌, List, [], ◌∷◌, ◌≡◌, ◌⊎◌, inl, inr, refl, ap, ◌∙◌,
}
use pve_meta.Error.{Location, Result, ok, err, ◌>>=◌, ◌>>◌}
use pve_meta.View.Descent.{is_ok}
use pve_meta.Format.Scan.{
  Marker, at_marker, Event, alias_to, scalar, sequence_start, mapping_start, sequence_end,
  mapping_end, ScanItem, event, Ctx, in_seq, in_map, yaml_err, note_child, reject_if_key_position,
  reject_marked, pop, scan_event, scan,
}

-- A node of a YAML document: whether it has an anchor and a tag, and where it begins and ends.
mutual
  pub data Tree : Type 0 where
    alias_node : Marker → Tree
    leaf : Bool → Bool → Marker → Tree
    sequence : Bool → Bool → Marker → Marker → Trees → Tree
    mapping : Bool → Bool → Marker → Marker → Entries → Tree

  pub data Trees : Type 0 where
    no_trees : Trees
    more_trees : Tree → Trees → Trees

  pub data Entries : Type 0 where
    no_entries : Entries
    entry : Tree → Tree → Entries → Entries

-- what the parser gives for a tree, before what follows
unfoldable mutual
  pub events : Tree → List ScanItem → List ScanItem
  events (alias_node m) rest = event alias_to m ∷ rest
  events (leaf anchored has_tag m) rest = event (scalar anchored has_tag) m ∷ rest
  events (sequence anchored has_tag m n ts) rest =
      event (sequence_start anchored has_tag) m ∷ tree_events ts (event sequence_end n ∷ rest)
  events (mapping anchored has_tag m n es) rest =
      event (mapping_start anchored has_tag) m ∷ entry_events es (event mapping_end n ∷ rest)

  pub tree_events : Trees → List ScanItem → List ScanItem
  tree_events no_trees rest = rest
  tree_events (more_trees t ts) rest = events t (tree_events ts rest)

  pub entry_events : Entries → List ScanItem → List ScanItem
  entry_events no_entries rest = rest
  entry_events (entry k v es) rest = events k (events v (entry_events es rest))

unfoldable pub is_leaf : Tree → Bool
is_leaf (leaf anchored has_tag m) = true
is_leaf _ = false

-- no alias, no anchor, no tag, and only scalars as keys
unfoldable mutual
  unfolding is_leaf

  pub is_plain : Tree → Bool
  is_plain (alias_node m) = false
  is_plain (leaf anchored has_tag m) = not anchored && not has_tag
  is_plain (sequence anchored has_tag m n ts) = (not anchored && not has_tag) && are_plain ts
  is_plain (mapping anchored has_tag m n es) = (not anchored && not has_tag) && entries_plain es

  pub are_plain : Trees → Bool
  are_plain no_trees = true
  are_plain (more_trees t ts) = is_plain t && are_plain ts

  pub entries_plain : Entries → Bool
  entries_plain no_entries = true
  entries_plain (entry k v es) = ((is_leaf k && is_plain k) && is_plain v) && entries_plain es

at_key : List Ctx → Bool
at_key (in_map expect_key ∷ stack) = expect_key
at_key stack = false

marked_ok :
    {A : Type 0} (anchored has_tag : Bool) (place : Location) (r : Result A)
    → is_ok (reject_marked anchored has_tag place >> r) ≡ ((not anchored && not has_tag) && is_ok r)
unfolding reject_marked yaml_err
marked_ok true has_tag place r = refl
marked_ok false true place r = refl
marked_ok false false place r = refl

key_ok :
    {A : Type 0} (stack : List Ctx) (place : Location) (r : Result A)
    → is_ok (reject_if_key_position stack place >> r) ≡ (not (at_key stack) && is_ok r)
unfolding reject_if_key_position yaml_err at_key
key_ok [] place r = refl
key_ok (in_seq ∷ stack) place r = refl
key_ok (in_map true ∷ stack) place r = refl
key_ok (in_map false ∷ stack) place r = refl

-- whether a tree may stand where the stack is
fits : List Ctx → Tree → Bool
fits stack t = is_plain t && (not (at_key stack) || is_leaf t)

bind_assoc :
    (r : Result (Unit {0})) (s : List Ctx) (f : List Ctx → Result (Unit {0}))
    → ((r >> ok s) >>= f) ≡ (r >> f s)
bind_assoc (ok u) s f = refl
bind_assoc (err e) s f = refl

scan_leaf :
    (anchored has_tag : Bool) (m : Marker) (rest : List ScanItem) (stack : List Ctx)
    → is_ok (scan (event (scalar anchored has_tag) m ∷ rest) stack)
      ≡ ((not anchored && not has_tag) && is_ok (scan rest (note_child stack)))
unfolding scan scan_event
scan_leaf anchored has_tag m rest stack =
    ap is_ok (
      bind_assoc (reject_marked anchored has_tag (at_marker m)) (note_child stack)
        (λ s. scan rest s))
    ∙ marked_ok anchored has_tag (at_marker m) (scan rest (note_child stack))

bind_two :
    (r q : Result (Unit {0})) (s : List Ctx) (f : List Ctx → Result (Unit {0}))
    → ((r >> (q >> ok s)) >>= f) ≡ (r >> (q >> f s))
bind_two (ok u) (ok v) s f = refl
bind_two (ok u) (err e) s f = refl
bind_two (err e) q s f = refl

scan_sequence :
    (anchored has_tag : Bool) (m : Marker) (items : List ScanItem) (stack : List Ctx)
    → is_ok (scan (event (sequence_start anchored has_tag) m ∷ items) stack) ≡ (
        (not anchored && not has_tag)
        && (not (at_key stack) && is_ok (scan items (in_seq ∷ stack))))
unfolding scan scan_event
scan_sequence anchored has_tag m items stack =
    ap is_ok (
      bind_two (reject_marked anchored has_tag (at_marker m))
        (reject_if_key_position stack (at_marker m)) (in_seq ∷ stack) (λ s. scan items s))
    ∙ (marked_ok anchored has_tag (at_marker m) _
        ∙ ap (λ b. (not anchored && not has_tag) && b)
            (key_ok stack (at_marker m) (scan items (in_seq ∷ stack))))

scan_mapping :
    (anchored has_tag : Bool) (m : Marker) (items : List ScanItem) (stack : List Ctx)
    → is_ok (scan (event (mapping_start anchored has_tag) m ∷ items) stack) ≡ (
        (not anchored && not has_tag)
        && (not (at_key stack) && is_ok (scan items (in_map true ∷ stack))))
unfolding scan scan_event
scan_mapping anchored has_tag m items stack =
    ap is_ok (
      bind_two (reject_marked anchored has_tag (at_marker m))
        (reject_if_key_position stack (at_marker m)) (in_map true ∷ stack) (λ s. scan items s))
    ∙ (marked_ok anchored has_tag (at_marker m) _
        ∙ ap (λ b. (not anchored && not has_tag) && b)
            (key_ok stack (at_marker m) (scan items (in_map true ∷ stack))))

scan_end :
    (e : Event) (n : Marker) (rest : List ScanItem) (ctx : Ctx) (stack : List Ctx)
    → (e ≡ sequence_end) ⊎ (e ≡ mapping_end)
    → scan (event e n ∷ rest) (ctx ∷ stack) ≡ scan rest (note_child stack)
unfolding scan scan_event pop
scan_end e n rest ctx stack (inl h) = rw h
scan_end e n rest ctx stack (inr h) = rw h

scan_alias :
    (m : Marker) (rest : List ScanItem) (stack : List Ctx)
    → is_ok (scan (event alias_to m ∷ rest) stack) ≡ false
unfolding scan scan_event yaml_err
scan_alias m rest stack = refl

leaf_test : (mark key r : Bool) → (mark && r) ≡ ((mark && (not key || true)) && r)
leaf_test true true r = refl
leaf_test true false r = refl
leaf_test false key r = refl

nested_test :
    (mark key plain r : Bool)
    → (mark && (not key && (plain && r))) ≡ (((mark && plain) && (not key || false)) && r)
nested_test true true true r = refl
nested_test true true false r = refl
nested_test true false true r = refl
nested_test true false false r = refl
nested_test false key plain r = refl

sequence_test :
    (plain whole others r : Bool)
    → ((plain && (true || whole)) && (others && r)) ≡ ((plain && others) && r)
sequence_test true whole others r = refl
sequence_test false whole others r = refl

entry_test :
    (whole key value whole_value others r : Bool)
    → ((key && (false || whole)) && ((value && (true || whole_value)) && (others && r)))
      ≡ ((((whole && key) && value) && others) && r)
entry_test true true true whole_value others r = refl
entry_test true true false whole_value others r = refl
entry_test true false value whole_value others r = refl
entry_test false true value whole_value others r = refl
entry_test false false value whole_value others r = refl

mutual
  unfolding events tree_events entry_events is_plain are_plain entries_plain fits at_key note_child

  scan-events :
      (t : Tree) (rest : List ScanItem) (stack : List Ctx)
      → is_ok (scan (events t rest) stack) ≡ (fits stack t && is_ok (scan rest (note_child stack)))
  scan-events (alias_node m) rest stack = scan_alias m rest stack
  scan-events (leaf anchored has_tag m) rest stack =
      scan_leaf anchored has_tag m rest stack
      ∙ leaf_test (not anchored && not has_tag) (at_key stack) _
  scan-events (sequence anchored has_tag m n ts) rest stack =
      rw
        (
          scan_sequence anchored has_tag m (tree_events ts (event sequence_end n ∷ rest)) stack,
          scan-tree_events ts (event sequence_end n ∷ rest) stack,
          scan_end sequence_end n rest in_seq stack (inl refl),
        )
        (nested_test (not anchored && not has_tag) (at_key stack) (are_plain ts) _)
  scan-events (mapping anchored has_tag m n es) rest stack =
      rw
        (
          scan_mapping anchored has_tag m (entry_events es (event mapping_end n ∷ rest)) stack,
          scan-entry_events es (event mapping_end n ∷ rest) stack,
          scan_end mapping_end n rest (in_map true) stack (inr refl),
        )
        (nested_test (not anchored && not has_tag) (at_key stack) (entries_plain es) _)

  scan-tree_events :
      (ts : Trees) (rest : List ScanItem) (stack : List Ctx)
      → is_ok (scan (tree_events ts rest) (in_seq ∷ stack))
        ≡ (are_plain ts && is_ok (scan rest (in_seq ∷ stack)))
  scan-tree_events no_trees rest stack = refl
  scan-tree_events (more_trees t ts) rest stack =
      rw (scan-events t (tree_events ts rest) (in_seq ∷ stack), scan-tree_events ts rest stack)
        (sequence_test (is_plain t) (is_leaf t) (are_plain ts) _)

  scan-entry_events :
      (es : Entries) (rest : List ScanItem) (stack : List Ctx)
      → is_ok (scan (entry_events es rest) (in_map true ∷ stack))
        ≡ (entries_plain es && is_ok (scan rest (in_map true ∷ stack)))
  scan-entry_events no_entries rest stack = refl
  scan-entry_events (entry k v es) rest stack =
      rw
        (
          scan-events k (events v (entry_events es rest)) (in_map true ∷ stack),
          scan-events v (entry_events es rest) (in_map false ∷ stack),
          scan-entry_events es rest stack,
        )
        (entry_test (is_leaf k) (is_plain k) (is_plain v) (is_leaf v) (entries_plain es) _)
