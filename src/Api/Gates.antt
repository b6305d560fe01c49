-- ===== src/Api/Gates.antt =====
-- What passes the gates of a write.
use pve_meta.Shared.{ℕ, Bool, List, [], ◌∷◌, is_empty, map, if◌then◌else◌, Eq, ◌≡◌, ◌↔◌, refl, ap}
use pve_meta.Json.{Value}
use pve_meta.DocId.{guest}
use pve_meta.Json.Numbers.{Numbers}
use pve_meta.Model.{Lint, lint}
use pve_meta.Patch.{Touched}
use pve_meta.Registry.{PrefixDef}
use pve_meta.Shape.{Finding, of_guest, enforced_findings, introduced}
use pve_meta.Api.{
  ApiError, ApiResult, done, refused, plan_write, check_enforced, linted, after_mutation, gate,
  changed_paths,
}

done_inj : {A : Type 0} {a b : A} → done a ≡ done b → a ≡ b
done_inj h = cc

passed :
    (lints : List Lint) (touched out : List Touched) (e : ApiError)
    → (if is_empty lints then done touched else refused e) ≡ done out
    → (lints ≡ []) × (touched ≡ out)
passed [] touched out e h = (refl, done_inj h)
passed (l ∷ lints) touched out e h = absurd (cc h)

module _ {N : Type 0} where
  linted_done :
      (kept_notes : Bool) (planned : Value N) (touched out : List Touched)
      → linted kept_notes planned touched ≡ done out
      → (lint planned ≡ []) × (touched ≡ out)
  unfolding linted
  linted_done kept_notes planned touched out h = passed (lint planned) touched out _ h

  after_done :
      (kept_notes : Bool) (planned : Value N) (answer : ApiResult (List Touched))
      (touched : List Touched)
      → (after_mutation kept_notes planned answer).1 ≡ done touched
      → (lint (after_mutation kept_notes planned answer).0 ≡ [])
        × ((after_mutation kept_notes planned answer).0 ≡ planned)
        × (answer ≡ done touched)
  unfolding after_mutation
  after_done kept_notes planned (done reported) touched h =
      let (clean, same) = linted_done kept_notes planned reported touched h in
      (clean, refl, ap done same)
  after_done kept_notes planned (refused e) touched h = absurd (cc h)

  -- A plan that is answered with paths leaves a document that passes the lint; the document is the
  -- one that the mutation left, and the paths are those that the mutation reported.
  pub plan_write-lint :
      (doc : Value N) (kept_notes : Bool) (mutate : Value N → Value N × ApiResult (List Touched))
      (touched : List Touched)
      → (plan_write doc kept_notes mutate).1 ≡ done touched
      → (lint (plan_write doc kept_notes mutate).0 ≡ [])
        × ((plan_write doc kept_notes mutate).0 ≡ (mutate doc).0)
        × ((mutate doc).1 ≡ done touched)
  unfolding plan_write
  plan_write-lint doc kept_notes mutate touched h =
      after_done kept_notes (mutate doc).0 (mutate doc).1 touched h

gate_iff : (found : List Finding) → (gate found ≡ done tt) ↔ (found ≡ [])
unfolding gate
gate_iff [] = ((λ _. refl), λ _. refl)
gate_iff (f ∷ found) = ((λ h. absurd (cc h)), λ h. absurd (cc h))

module _ {N F : Type 0} (numbers : Numbers N F) ⦃e : Eq N⦄ where
  -- The schema gate lets a write to a guest's document pass exactly if, of the findings under an
  -- enforcing schema, the write introduces none.
  pub check_enforced_iff :
      (prefixes : List (PrefixDef N)) (vmid : ℕ) (stored planned : Value N) (touched : List Touched)
      → (check_enforced numbers prefixes (guest vmid) stored planned touched ≡ done tt) ↔ (
          introduced
            (enforced_findings numbers (of_guest prefixes) stored)
            (enforced_findings numbers (of_guest prefixes) planned)
            (map (λ t. t.path) touched)
          ≡ [])
  unfolding check_enforced changed_paths
  check_enforced_iff prefixes vmid stored planned touched = gate_iff _
