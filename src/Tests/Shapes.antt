-- ===== src/Tests/Shapes.antt =====
-- Schema checks and shapes on concrete prefixes and documents.
use pve_meta.Shared.{
  ℕ, String, true, false, Option, none, some, List, [], ◌∷◌, ltb, ◌≡◌, ◌↔◌, refl, All,
}
use pve_meta.Json.{Value, string, object, field}
use mathlib.Core.List.{Memᴰ}
use mathlib.Core.List.Memᴰ.{head}
use pve_meta.DocPath.{child, is_prefix_of}
use pve_meta.Json.Numbers.{Numbers, pos}
use pve_meta.Shared.Sort.{sort_by, compare_texts}
use pve_meta.Shared.Decimal.{parse_unsigned}
use pve_meta.Model.{get_path}
use pve_meta.Schema.{
  check_value, get_key, check_type, check_enum, check_range, check_bound, as_number, type_matches,
  flag,
}
use pve_meta.Schema.Checks.{check_value_iff, HasType, IsListed, IsWithin}
use pve_meta.Registry.{by_specificity}
use pve_meta.Shape.{
  findings_from, owner_findings, walk, entry_reports, same_segments, reported, Declared, Finding,
  shape_of, governing, findings, is_owner, introduced, finding, path_of,
}
use pve_meta.Shape.Governing.{governing_most_specific, IsDeeper}
use pve_meta.Shape.Edits.{introduced_nothing_iff, IsBeside}
use pve_meta.Shape.Findings.{HasNoFinding, item_at, findings_complete, here, entry}
use pve_meta.Tests.Numbers.{nat_eq, num, one}
use pve_meta.Tests.Views.{at}

-- Natural numbers as the numbers of documents and as `f64`.
abbrev pub nat_numbers : Numbers ℕ ℕ
nat_numbers = record {
  as_i64 = λ n. some (pos n);
  is_i64 = λ n. true;
  is_u64 = λ n. true;
  as_f64 = λ n. some n;
  less = ltb;
  display = λ v. "?";
  float_text = λ x. "?";
}

abbrev port_schema : Value ℕ
port_schema =
    object (field "type" (string "integer") (field "minimum" (num 1) (one "maximum" (num 65_535))))

abbrev spec_schema : Value ℕ
spec_schema = object (one "properties" (object (one "port" port_schema)))

abbrev prefix_at : List String → Option (Value ℕ) → Declared ℕ
prefix_at segments schema = record {
  prefix = at segments;
  description = none;
  schema = schema;
  enforce = true;
  hidden = false;
}

abbrev declared : List (Declared ℕ)
declared = prefix_at ("home" ∷ []) none ∷ prefix_at ("home" ∷ "spec" ∷ []) (some spec_schema) ∷ []

abbrev spec_prefix : Declared ℕ
spec_prefix = prefix_at ("home" ∷ "spec" ∷ []) (some spec_schema)

abbrev good_spec : Value ℕ
good_spec = object (one "port" (num 80))

abbrev in_home : Value ℕ → Value ℕ
in_home v = object (one "home" (object (one "spec" v)))

rejects_a_port_out_of_range :
    findings nat_numbers (shape_of declared) (in_home (object (one "port" (num 70_000))))
    ≡ finding (record {
      path = at ("home" ∷ "spec" ∷ "port" ∷ []);
      msg = "must be at most ?";
      enforced = true;
    })
      ∷ []
unfolding findings shape_of sort_by findings_from owner_findings by_specificity get_path walk
    check_value check_type get_key check_enum check_range check_bound as_number is_owner governing
    is_prefix_of child type_matches flag entry_reports same_segments compare_texts parse_unsigned
    reported path_of
rejects_a_port_out_of_range = refl

check_value_iff_example : (check_value nat_numbers port_schema (num 80) ≡ none) ↔ (
    HasType nat_numbers port_schema (num 80)
    × IsListed nat_numbers port_schema (num 80)
    × IsWithin nat_numbers port_schema (num 80) "minimum" ltb
    × IsWithin nat_numbers port_schema (num 80) "maximum" (λ n b. ltb b n))
check_value_iff_example = check_value_iff nat_numbers port_schema (num 80)

governing_most_specific_example :
    Memᴰ spec_prefix declared
    × (is_prefix_of spec_prefix.prefix (at ("home" ∷ "spec" ∷ "port" ∷ [])) ≡ true)
    × All
        (λ other.
          is_prefix_of other.prefix (at ("home" ∷ "spec" ∷ "port" ∷ [])) ≡ true
          → IsDeeper spec_prefix other)
        declared
unfolding governing shape_of sort_by by_specificity is_prefix_of
governing_most_specific_example =
    governing_most_specific declared (at ("home" ∷ "spec" ∷ "port" ∷ [])) spec_prefix refl

abbrev stale : Finding
stale = record {
  path = at ("home" ∷ "spec" ∷ "port" ∷ []);
  msg = "expected integer";
  enforced = true;
}

introduced_nothing_iff_example :
    (introduced (stale ∷ []) (stale ∷ []) (at ("dns" ∷ []) ∷ []) ≡ [])
    ↔ All
        (λ f. Memᴰ f (stale ∷ []) × All (λ c. IsBeside c f.path) (at ("dns" ∷ []) ∷ []))
        (stale ∷ [])
introduced_nothing_iff_example =
    introduced_nothing_iff (stale ∷ []) (stale ∷ []) (at ("dns" ∷ []) ∷ [])

findings_complete_example : check_value nat_numbers port_schema (num 80) ≡ none
unfolding findings shape_of sort_by findings_from owner_findings by_specificity get_path walk
    check_value check_type get_key check_enum check_range check_bound as_number is_owner governing
    is_prefix_of child type_matches flag entry_reports same_segments compare_texts parse_unsigned
    reported path_of HasNoFinding item_at
findings_complete_example =
    findings_complete nat_numbers (shape_of declared) (in_home good_spec) spec_prefix spec_schema
      good_spec port_schema (num 80) refl (head refl) refl refl
      (entry "port" refl refl refl refl here)
