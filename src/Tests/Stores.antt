-- ===== src/Tests/Stores.antt =====
-- The store on concrete worlds: byte strings are texts, a digest is the content, and the parser
-- knows two documents.
use pve_meta.Shared.{
  ℕ, zero, suc, ◌≤◌, String, true, Option, none, some, List, [], ◌∷◌, str_eq, if◌then◌else◌, ◌≡◌,
  ◌≢◌, ◌⊎◌, inl, inr, refl, ap, arith,
}
use pve_meta.Json.{Value, number, object, end, field}
use pve_meta.Disk.{
  FilePath, Io, regular, Disk, lookup, put, erase, read_node, meta_node, blocked_node, remove_node,
  same_path, gone_is_none, read_dir,
}
use pve_meta.DocId.{guest}
use pve_meta.Error.{Error, ok, err}
use pve_meta.Format.{from_ext}
use pve_meta.Format.Texts.{
  Parsed, parsed, unparsed, Libraries, normalize_trailing_newline, parse, parse_raw, parse_yaml,
}
use pve_meta.Format.Scan.{scan, scan_yaml_safety}
use pve_meta.Model.{lint, is_valid_key, is_comment_key}
use pve_meta.Store.{
  MetaStore, World, Document, disk_format, max_bytes, is_valid_snapshot_name, check_available,
  path_for, snapshot_path, read_path_for, check_size, identify, read, digest_of, check_digest,
  or_no_digest,
}
use pve_meta.Store.Calls.{
  run_script, write_script, apply_call, wrote, moved, after_write, after_rename,
}
use pve_meta.Store.Ops.{
  temp_path, write_atomic, document_written, accept, put_accepted, put_raw, removed, remove_path,
  after_checks, check_snapshot_name, delete, as_true, copied, snapshot, as_restored, as_removed,
  rolled_back, rollback, modified_or,
}
use pve_meta.Store.Spec.{Op, put_op, delete_op, snapshot_op, perform, run, steps, model_of}
use pve_meta.Store.Refines.{model_of-run}
use pve_meta.Store.Snapshots.{is_on_snapshot, rollback-snapshot}
use pve_meta.Store.Visible.{read-put_raw, put_raw-stale, put_raw-refused}
use pve_meta.Store.Contents.{IsExpected, document_put}
use pve_meta.Store.Accepted.{put_raw-IsAccepted}
use pve_meta.Store.Progress.{put_raw-succeeds}
use pve_meta.Store.Interruptions.{Interrupted-IsWhole}
use pve_meta.Store.Sound.{IsSound, run-IsSound}
use pve_meta.Store.Names.{guest_file, snapshot_file, guest-IsVisible}
use pve_meta.Store.Listings.{vmid_of_file, purge, purge_snapshots, list_snapshots}
use pve_meta.Store.Listings.Own.{vmid_of_file-own}
use pve_meta.Store.Listings.Purge.{purge-others, purge-docs, IsSameFor}
use pve_meta.Shared.Decimal.{to_string}
use pve_meta.Shared.Sort.{sort_by}
use pve_meta.Tests.Numbers.{num, one}

abbrev pub chars : String → ℕ
chars String.[] = 0
chars (String.◌∷◌ c s) = suc (chars s)

abbrev pub a_map : ℕ → Value ℕ
a_map n = object (one "a" (num n))

abbrev toy_parse : String → Parsed (Value ℕ)
toy_parse text =
    if str_eq text "a: 1\n"
    then parsed (a_map 1)
    else if str_eq text "a: 2\n"
    then parsed (a_map 2)
    else unparsed "unknown" none

abbrev toy_print : Value ℕ → String
toy_print (object (field k (number (suc zero)) end)) = "a: 1"
toy_print _ = "a: 2"

abbrev pub toy : Libraries ℕ String
toy = record {
  bytes_of = λ text. text;
  text_of = λ bytes. some bytes;
  utf8_error = λ bytes. "";
  size = chars;
  sha256 = λ bytes. bytes;
  sha256_oversized = λ len time. "oversized";
  sha256_entries = λ entries. "token";
  yaml_events = λ text. [];
  from_yaml = toy_parse;
  from_json = toy_parse;
  print_yaml = toy_print;
  print_json = toy_print;
}

abbrev pub at_m : MetaStore
at_m = record { root = "/m"; prefix_dirs = []; marker = none; writer = "pve1.42" }

abbrev pub world_with : Disk String → World String
world_with disk = record { disk = disk; marker_is_link = Io.done true; now = 7; write_seq = 0 }

abbrev pub empty_world : World String
empty_world = world_with []

abbrev pub stored_world : World String
stored_world = world_with ((record { dir = "/m"; name = "105.yaml" }, regular "a: 1\n" 3) ∷ [])

abbrev a_day : List (ℕ × Op)
a_day =
    (7, put_op 105 "a: 1" none)
    ∷ (8, snapshot_op 105 "before")
    ∷ (9, put_op 105 "a: 2" (some "a: 1\n"))
    ∷ []

model_of-run_example :
    model_of toy at_m (run toy at_m a_day empty_world).0
    ≡ steps toy a_day (run toy at_m a_day empty_world).1 (model_of toy at_m empty_world)
model_of-run_example = model_of-run toy at_m a_day empty_world

abbrev then_deleted : List (ℕ × Op)
then_deleted = (8, put_op 105 "a: 2" none) ∷ (9, delete_op 105) ∷ []

rollback-snapshot_example :
    read_node (
      lookup
        (path_for toy at_m (guest 105))
        (rollback toy at_m
          (run toy at_m then_deleted (snapshot toy at_m stored_world 105 "before").0).0
          105
          "before").0.disk)
    ≡ read_node (lookup (path_for toy at_m (guest 105)) stored_world.disk)
unfolding lookup put erase read_node meta_node blocked_node remove_node same_path gone_is_none
    normalize_trailing_newline parse parse_raw parse_yaml scan_yaml_safety scan lint is_valid_key
    is_comment_key is_valid_snapshot_name from_ext check_available path_for snapshot_path
    read_path_for check_size identify digest_of check_digest or_no_digest temp_path run_script
    write_script apply_call wrote moved after_write after_rename write_atomic document_written
    accept put_accepted put_raw removed remove_path after_checks check_snapshot_name delete as_true
    copied snapshot as_restored as_removed rolled_back rollback perform run is_on_snapshot to_string
    modified_or
rollback-snapshot_example =
    rollback-snapshot toy at_m stored_world 105 "before" then_deleted refl (refl, (refl, tt)) refl

abbrev expected_one : Document ℕ
expected_one = document_put toy at_m empty_world (guest 105) "a: 1\n" (a_map 1)

read-put_raw_example :
    read toy at_m (put_raw toy at_m empty_world (guest 105) "a: 1" (some "")).0 (guest 105)
    ≡ ok expected_one
unfolding lookup put erase read_node meta_node blocked_node remove_node same_path gone_is_none
    normalize_trailing_newline parse parse_raw parse_yaml scan_yaml_safety scan lint is_valid_key
    is_comment_key is_valid_snapshot_name from_ext check_available path_for snapshot_path
    read_path_for check_size identify digest_of check_digest or_no_digest temp_path run_script
    write_script apply_call wrote moved after_write after_rename write_atomic document_written
    accept put_accepted put_raw modified_or to_string
read-put_raw_example =
    read-put_raw toy at_m empty_world 105 "a: 1" (some "") expected_one (λ text. refl) refl

chars_of : String → ℕ
chars_of text = chars text

not_empty : toy.sha256 "a: 1\n" ≢ ""
unfolding chars_of
not_empty h = let lengths : 5 ≡ 0 = ap chars_of h in omega (arith, lengths)

put_raw-stale_example :
    put_raw toy at_m
      (put_raw toy at_m empty_world (guest 105) "a: 1" (some "")).0
      (guest 105)
      "a: 2"
      (some "")
    ≡ (
      (put_raw toy at_m empty_world (guest 105) "a: 1" (some "")).0,
      err (Error.digest_mismatch "" "a: 1\n"),
    )
unfolding lookup put erase read_node meta_node blocked_node remove_node same_path gone_is_none
    normalize_trailing_newline parse parse_raw parse_yaml scan_yaml_safety scan lint is_valid_key
    is_comment_key is_valid_snapshot_name from_ext check_available path_for snapshot_path
    read_path_for check_size identify digest_of check_digest or_no_digest temp_path run_script
    write_script apply_call wrote moved after_write after_rename write_atomic document_written
    accept put_accepted put_raw modified_or to_string
put_raw-stale_example =
    put_raw-stale toy at_m empty_world 105 "a: 1" "a: 2" "" expected_one refl not_empty

put_raw-refused_example :
    put_raw toy at_m stored_world (guest 105) "a: 2" (some "")
    ≡ (stored_world, err (Error.digest_mismatch "" (or_no_digest (some "a: 1\n"))))
unfolding lookup put erase read_node meta_node blocked_node remove_node same_path gone_is_none
    normalize_trailing_newline parse parse_raw parse_yaml scan_yaml_safety scan lint is_valid_key
    is_comment_key is_valid_snapshot_name from_ext check_available path_for snapshot_path
    read_path_for check_size identify digest_of check_digest or_no_digest temp_path run_script
    write_script apply_call wrote moved after_write after_rename write_atomic document_written
    accept put_accepted put_raw modified_or to_string
put_raw-refused_example =
    put_raw-refused toy at_m stored_world (guest 105) "a: 2" "" (some "a: 1\n") refl not_empty

put_raw-succeeds_example :
    (put_raw toy at_m stored_world (guest 105) "a: 2" (some "a: 1\n")).1
    ≡ ok (
        document_put toy at_m stored_world
          (guest 105)
          (normalize_trailing_newline "a: 2")
          (a_map 2))
unfolding lookup put erase read_node meta_node blocked_node remove_node same_path gone_is_none
    normalize_trailing_newline parse parse_raw parse_yaml scan_yaml_safety scan lint is_valid_key
    is_comment_key is_valid_snapshot_name from_ext check_available path_for snapshot_path
    read_path_for check_size identify digest_of check_digest or_no_digest temp_path run_script
    write_script apply_call wrote moved after_write after_rename write_atomic document_written
    accept put_accepted put_raw modified_or to_string
put_raw-succeeds_example =
    put_raw-succeeds toy at_m stored_world 105 "a: 2" "a: 1\n" (some "a: 1\n") (a_map 2) refl refl
      (ground arith) refl refl refl

abbrev expected_two : Document ℕ
expected_two = document_put toy at_m stored_world (guest 105) "a: 2\n" (a_map 2)

put_raw-IsAccepted_example :
    ((current : Option String) × (digest_of toy at_m stored_world (guest 105) ≡ ok current)
      × IsExpected (some "a: 1\n") current)
    × (expected_two.id ≡ guest 105)
    × (expected_two.raw ≡ normalize_trailing_newline "a: 2")
    × (toy.size (toy.bytes_of expected_two.raw) ≤ max_bytes)
    × (parse_raw toy disk_format expected_two.raw ≡ ok expected_two.value)
    × (lint expected_two.value ≡ [])
    × (expected_two.digest ≡ toy.sha256 (toy.bytes_of expected_two.raw))
unfolding lookup put erase read_node meta_node blocked_node remove_node same_path gone_is_none
    normalize_trailing_newline parse parse_raw parse_yaml scan_yaml_safety scan lint is_valid_key
    is_comment_key is_valid_snapshot_name from_ext check_available path_for snapshot_path
    read_path_for check_size identify digest_of check_digest or_no_digest temp_path run_script
    write_script apply_call wrote moved after_write after_rename write_atomic document_written
    accept put_accepted put_raw modified_or to_string
put_raw-IsAccepted_example =
    put_raw-IsAccepted toy at_m stored_world 105 "a: 2" (some "a: 1\n") expected_two refl

abbrev torn_disk : Disk String
torn_disk =
    put (temp_path toy at_m (path_for toy at_m (guest 105)) 0) (regular "a:" 7) stored_world.disk

abbrev path_105 : FilePath
path_105 = path_for toy at_m (guest 105)

Interrupted-IsWhole_example :
    ((
      (write_atomic toy at_m stored_world path_105 "a: 2\n").0.disk,
      (write_atomic toy at_m stored_world path_105 "a: 2\n").1,
    )
      ≡ run_script 7
          (write_script (temp_path toy at_m path_105 0) path_105 "a: 2\n")
          stored_world.disk)
    × ((lookup path_105 torn_disk ≡ lookup path_105 stored_world.disk)
        ⊎ ((same_path path_105 path_105 ≡ true)
            × (lookup path_105 torn_disk ≡ some (regular "a: 2\n" 7))))
unfolding write_script blocked_node lookup same_path temp_path path_for to_string
Interrupted-IsWhole_example =
    Interrupted-IsWhole toy at_m stored_world path_105 path_105 "a: 2\n" torn_disk
      (inr (inl (refl, ("a:", refl)))) (guest-IsVisible toy at_m 105)

run-IsSound_example : IsSound toy (model_of toy at_m (run toy at_m a_day empty_world).0)
unfolding IsSound model_of lookup
run-IsSound_example = run-IsSound toy at_m a_day empty_world ((λ v. tt), λ v name. tt)

vmid_of_file-own_example :
    (vmid_of_file (guest_file 105) ≡ some 105)
    × (vmid_of_file (snapshot_file 105 "before") ≡ some 105)
unfolding is_valid_snapshot_name from_ext
vmid_of_file-own_example = vmid_of_file-own 105 "before" (ground arith) refl

purge-others_example :
    IsSameFor 106
      (model_of toy at_m (purge toy at_m stored_world 105).0)
      (model_of toy at_m stored_world)
purge-others_example = purge-others toy at_m stored_world 106 105 refl

purge-docs_example : (model_of toy at_m (purge toy at_m stored_world 105).0).docs 105 ≡ none
unfolding purge delete list_snapshots purge_snapshots remove_path removed after_checks
    check_available lookup erase remove_node same_path path_for to_string read_dir gone_is_none
    sort_by
purge-docs_example = purge-docs toy at_m stored_world 105 1 refl
