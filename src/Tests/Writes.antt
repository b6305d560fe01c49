-- ===== src/Tests/Writes.antt =====
-- The handlers of the API on the concrete store of Tests.Stores.
use pve_meta.Shared.{
  ℕ, String, true, false, none, some, List, [], ◌∷◌, if◌then◌else◌, ◌≡◌, ◌⊎◌, inl, refl, All, map,
}
use pve_meta.Json.{Value, string, object, end}
use pve_meta.Disk.{
  lookup, put, erase, read_node, meta_node, blocked_node, remove_node, same_path, gone_is_none,
}
use pve_meta.DocPath.{is_root}
use pve_meta.DocId.{guest}
use pve_meta.Format.{from_ext}
use pve_meta.Format.Texts.{normalize_trailing_newline, parse, parse_raw, parse_yaml, dump}
use pve_meta.Format.Scan.{scan, scan_yaml_safety}
use pve_meta.Model.{lint, is_valid_key, is_comment_key}
use pve_meta.Patch.{touch, delete, diff, diff_at, gone_keys}
use pve_meta.Registry.Parse.{RawPrefixDef}
use pve_meta.View.{remove, extract, descend, replace, parent_and_key}
use pve_meta.Shared.Text.{split_once}
use pve_meta.Shared.Decimal.{parse_unsigned, to_string}
use pve_meta.Store.{
  disk_format, read, read_document, or_not_found, utf8, document_of, check_precondition,
  check_available, path_for, read_path_for, check_size, check_read_size, identify, digest_of,
  check_digest, or_no_digest, has_own_file,
}
use pve_meta.Store.Calls.{
  run_script, write_script, apply_call, wrote, moved, after_write, after_rename,
}
use pve_meta.Store.Ops.{
  temp_path, write_atomic, document_written, accept, put_accepted, put_raw, modified_or,
}
use pve_meta.Store.Contents.{IsMet}
use pve_meta.Store.Spec.{model_of, set_doc}
use pve_meta.Api.{
  ApiResult, done, from_core, parse_id, read_stored, plan_write, check_repairable, authorize_write,
  check_enforced,
}
use pve_meta.Api.Wire.{
  CallerAcl, ApiPutResult, parse_view, parse_view_format, parse_mode, parse_payload,
  check_registry_shape, touched_out,
}
use pve_meta.Api.Plan.{PutRequest, Plan, removal, plan_put, stored_at, checked_plan, mutate, unless}
use pve_meta.Api.Handlers.{
  is_unchanged, put_result, written_digest, answered, unwritten, apply_put, after_plan,
  put_document,
}
use pve_meta.Api.Checked.{plan_put-IsChecked, IsChecked}
use pve_meta.Api.Enforced.{plan_put-IsEnforced}
use pve_meta.Schema.{
  check_value, get_key, check_type, check_enum, check_range, check_bound, as_number, type_matches,
  flag,
}
use pve_meta.Registry.{PrefixDef, everyone, packaged, by_specificity}
use pve_meta.Model.{get_path}
use pve_meta.DocPath.{child, is_prefix_of}
use pve_meta.Tests.Views.{at}
use pve_meta.Tests.Numbers.{one}
use pve_meta.Shape.{
  of_guest, enforced_findings, enforced_of, introduced, findings, shape_of, findings_from,
  governing, owner_findings, walk, entry_reports, same_segments, reported, is_owner, is_touched,
  path_of, same_finding, declared_of,
}
use pve_meta.Shape.Edits.{IsBeside}
use pve_meta.Shared.Sort.{sort_by, compare_texts}
use mathlib.Core.List.{Memᴰ}
use pve_meta.Api.Removable.{plan_delete-IsChecked, IsRepairable}
use pve_meta.Api.Removals.{planned_removal, check_own_file, Removal, plan_delete, delete_document}
use pve_meta.Api.Listings.{
  GuestInput, GuestListEntry, list_guests, guest_rows, IsReadableRow, list_guests_readable,
}
use pve_meta.Api.Deletes.{delete_document-effect}
use pve_meta.Api.DryRuns.{put_document-dry_run}
use pve_meta.Api.Effects.{put_document-effect, is_done, with_text}
use pve_meta.Tests.Numbers.{nat_eq}
use pve_meta.Tests.Shapes.{nat_numbers}
use pve_meta.Tests.Stores.{toy, at_m, a_map, stored_world}

abbrev pub no_prefix_file : Value ℕ → String ⊎ RawPrefixDef ℕ
no_prefix_file v = inl "not a prefix"

abbrev operator : CallerAcl
operator = record { authid = "root@pam"; read = true; write = true; tags = []; at_node = none }

abbrev replaces : PutRequest
replaces = record {
  id = "105";
  view = none;
  format_name = "yaml";
  payload = "a: 2\n";
  mode = "replace";
  digest = some "a: 1\n";
  dry_run = false;
  force = true;
  comments = true;
}

abbrev answer : ApiResult ApiPutResult
answer = (put_document nat_numbers toy no_prefix_file at_m stored_world [] replaces operator).1

put_document-effect_example :
    (model_of toy at_m
        (put_document nat_numbers toy no_prefix_file at_m stored_world [] replaces operator).0
      ≡ model_of toy at_m stored_world)
    ⊎ ((plan : Plan ℕ) × (plan_put nat_numbers toy no_prefix_file at_m stored_world [] replaces
            operator
          ≡ done plan)
        × (replaces.dry_run ≡ false)
        × (is_done
              (put_document nat_numbers toy no_prefix_file at_m stored_world [] replaces operator).1
            ≡ true)
        × (model_of toy at_m
              (put_document nat_numbers toy no_prefix_file at_m stored_world [] replaces operator).0
            ≡ with_text nat_numbers toy no_prefix_file at_m stored_world 105 plan.text))
unfolding parse_id split_once parse_unsigned
put_document-effect_example =
    put_document-effect nat_numbers toy no_prefix_file at_m stored_world [] replaces operator 105
      refl

abbrev the_answer : ApiPutResult
the_answer =
    put_result nat_numbers toy no_prefix_file at_m none (guest 105) (diff (a_map 1) (a_map 2))
      "a: 2\n"

put_document-dry_run_example :
    put_document nat_numbers toy no_prefix_file at_m stored_world []
      (record replaces { dry_run = true })
      operator
    ≡ (stored_world, done the_answer)
unfolding lookup put erase read_node meta_node blocked_node remove_node same_path gone_is_none
    normalize_trailing_newline parse parse_raw parse_yaml scan_yaml_safety scan lint is_valid_key
    is_comment_key check_available path_for read_path_for check_size identify digest_of check_digest
    or_no_digest temp_path run_script write_script apply_call wrote moved after_write after_rename
    write_atomic document_written accept put_accepted put_raw modified_or to_string put_document
    after_plan apply_put is_unchanged put_result written_digest answered unwritten plan_put
    stored_at checked_plan mutate unless parse_view parse_view_format parse_mode parse_payload
    check_registry_shape parse_id split_once parse_unsigned from_core read_stored plan_write
    check_repairable authorize_write check_precondition from_ext extract descend replace
    parent_and_key diff diff_at gone_keys dump read read_document or_not_found utf8 document_of
    check_read_size touched_out
put_document-dry_run_example =
    put_document-dry_run nat_numbers toy no_prefix_file at_m stored_world [] replaces operator 105
      the_answer refl refl

abbrev the_plan : Plan ℕ
the_plan = record {
  doc_id = guest 105;
  stored = record { value = a_map 1; digest = "a: 1\n"; unrecoverable = none; raw = some "a: 1\n" };
  planned = a_map 2;
  touched = diff (a_map 1) (a_map 2);
  text = "a: 2\n";
}

plan_put-IsChecked_example :
    (operator.write ≡ true)
    × (parse_id replaces.id ≡ done the_plan.doc_id)
    × IsMet toy at_m stored_world the_plan.doc_id replaces.digest
    × (stored_at nat_numbers toy no_prefix_file at_m stored_world the_plan.doc_id
        ≡ done the_plan.stored)
    × IsChecked nat_numbers toy no_prefix_file at_m [] replaces.force the_plan
unfolding lookup put erase read_node meta_node blocked_node remove_node same_path gone_is_none
    normalize_trailing_newline parse parse_raw parse_yaml scan_yaml_safety scan lint is_valid_key
    is_comment_key check_available path_for read_path_for check_size identify digest_of check_digest
    or_no_digest temp_path run_script write_script apply_call wrote moved after_write after_rename
    write_atomic document_written accept put_accepted put_raw modified_or to_string put_document
    after_plan apply_put is_unchanged put_result written_digest answered unwritten plan_put
    stored_at checked_plan mutate unless parse_view parse_view_format parse_mode parse_payload
    check_registry_shape parse_id split_once parse_unsigned from_core read_stored plan_write
    check_repairable authorize_write check_precondition from_ext extract descend replace
    parent_and_key diff diff_at gone_keys dump read read_document or_not_found utf8 document_of
    check_read_size touched_out
plan_put-IsChecked_example =
    plan_put-IsChecked nat_numbers toy no_prefix_file at_m stored_world [] replaces operator
      the_plan refl

-- `a` has to be an integer, whatever the request.
abbrev integer_a : PrefixDef ℕ
integer_a = record {
  prefix = at ("a" ∷ []);
  description = none;
  schema = some (object (one "type" (string "integer")));
  enforce = true;
  hidden = false;
  selector = everyone;
  nodes = [];
  origin = packaged;
  overrides = false;
}

abbrev unforced : PutRequest
unforced = record replaces { force = false }

plan_put-IsEnforced_example :
    All
      (λ f.
        Memᴰ f (enforced_findings nat_numbers (of_guest (integer_a ∷ [])) the_plan.stored.value)
        × All (λ c. IsBeside c f.path) (map (λ t. t.path) the_plan.touched))
      (enforced_findings nat_numbers (of_guest (integer_a ∷ [])) the_plan.planned)
unfolding lookup put erase read_node meta_node blocked_node remove_node same_path gone_is_none
    normalize_trailing_newline parse parse_raw parse_yaml scan_yaml_safety scan lint is_valid_key
    is_comment_key check_available path_for read_path_for check_size identify digest_of check_digest
    or_no_digest temp_path run_script write_script apply_call wrote moved after_write after_rename
    write_atomic document_written accept put_accepted put_raw modified_or to_string put_document
    after_plan apply_put is_unchanged put_result written_digest answered unwritten plan_put
    stored_at checked_plan mutate unless parse_view parse_view_format parse_mode parse_payload
    check_registry_shape parse_id split_once parse_unsigned from_core read_stored plan_write
    check_repairable authorize_write check_precondition from_ext extract descend replace
    parent_and_key diff diff_at gone_keys dump read read_document or_not_found utf8 document_of
    check_read_size touched_out check_enforced introduced enforced_findings findings shape_of
    of_guest sort_by findings_from enforced_of owner_findings by_specificity get_path walk
    check_value check_type get_key check_enum check_range check_bound as_number is_owner governing
    is_prefix_of child type_matches flag entry_reports same_segments compare_texts reported path_of
    is_touched same_finding declared_of
plan_put-IsEnforced_example =
    plan_put-IsEnforced nat_numbers toy no_prefix_file at_m stored_world (integer_a ∷ []) unforced
      operator the_plan 105 refl refl refl

abbrev the_removal : Removal nat_numbers toy no_prefix_file at_m
the_removal = record {
  doc_id = guest 105;
  view_path = at [];
  stored = the_plan.stored;
  planned = object end;
  touched = touch (at ("a" ∷ [])) delete ∷ [];
}

plan_delete-IsChecked_example :
    (operator.write ≡ true)
    × (parse_id "105" ≡ done the_removal.doc_id)
    × (parse_view none ≡ done the_removal.view_path)
    × IsMet toy at_m stored_world the_removal.doc_id (some "a: 1\n")
    × (stored_at nat_numbers toy no_prefix_file at_m stored_world the_removal.doc_id
        ≡ done the_removal.stored)
    × IsRepairable the_removal.stored the_removal.view_path
    × (lint the_removal.planned ≡ [])
unfolding lookup put erase read_node meta_node blocked_node remove_node same_path gone_is_none
    normalize_trailing_newline parse parse_raw parse_yaml scan_yaml_safety scan lint is_valid_key
    is_comment_key check_available path_for read_path_for check_size identify digest_of check_digest
    or_no_digest temp_path run_script write_script apply_call wrote moved after_write after_rename
    write_atomic document_written accept put_accepted put_raw modified_or to_string put_document
    after_plan apply_put is_unchanged put_result written_digest answered unwritten plan_put
    stored_at checked_plan mutate unless parse_view parse_view_format parse_mode parse_payload
    check_registry_shape parse_id split_once parse_unsigned from_core read_stored plan_write
    check_repairable authorize_write check_precondition from_ext extract descend replace
    parent_and_key diff diff_at gone_keys dump read read_document or_not_found utf8 document_of
    check_read_size touched_out plan_delete planned_removal check_own_file removal remove
    has_own_file child
plan_delete-IsChecked_example =
    plan_delete-IsChecked nat_numbers toy no_prefix_file at_m stored_world "105" none
      (some "a: 1\n") operator the_removal refl

delete_document-effect_example :
    (model_of toy at_m
        (delete_document nat_numbers toy no_prefix_file at_m stored_world "105" none none
          operator).0
      ≡ model_of toy at_m stored_world)
    ⊎ ((r : Removal nat_numbers toy no_prefix_file at_m) × (plan_delete nat_numbers toy
            no_prefix_file at_m stored_world "105" none none operator
          ≡ done r)
        × (is_done
              (delete_document nat_numbers toy no_prefix_file at_m stored_world "105" none none
                operator).1
            ≡ true)
        × (model_of toy at_m
              (delete_document nat_numbers toy no_prefix_file at_m stored_world "105" none none
                operator).0
            ≡ (if is_root r.view_path
                then set_doc 105 none (model_of toy at_m stored_world)
                else with_text nat_numbers toy no_prefix_file at_m stored_world 105
                    (dump toy disk_format r.planned))))
unfolding parse_id split_once parse_unsigned
delete_document-effect_example =
    delete_document-effect nat_numbers toy no_prefix_file at_m stored_world 105 "105" none none
      operator refl

abbrev guests : List GuestInput
guests =
    record { vmid = 105; at_node = none; kind = none; name = none; tags = []; read = true }
    ∷ record { vmid = 106; at_node = none; kind = none; name = none; tags = []; read = false }
    ∷ []

abbrev listed_guest : GuestListEntry
listed_guest = record {
  vmid = 105;
  at_node = none;
  kind = none;
  name = none;
  tags = [];
  digest = "a: 1\n";
}

list_guests_readable_example :
    All (IsReadableRow nat_numbers toy no_prefix_file at_m guests) (listed_guest ∷ [])
unfolding list_guests guest_rows from_core digest_of check_available identify read_path_for path_for
    lookup same_path read_node meta_node gone_is_none to_string or_no_digest
list_guests_readable_example =
    list_guests_readable nat_numbers toy no_prefix_file at_m stored_world guests none
      (listed_guest ∷ []) refl
