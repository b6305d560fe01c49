-- ===== src/Api/Enforced.antt =====
-- What the enforcing schemas of crates/pve-meta-api/src/api.rs keep out of a guest's document.
use pve_meta.Shared.{ℕ, String, false, List, map, Eq, ◌≡◌, ◌⊎◌, All}
use mathlib.Core.List.{Memᴰ}
use pve_meta.Json.{Value}
use pve_meta.DocId.{guest}
use pve_meta.Format.Texts.{Libraries}
use pve_meta.Json.Numbers.{Numbers}
use pve_meta.Registry.{PrefixDef}
use pve_meta.Registry.Parse.{RawPrefixDef}
use pve_meta.Shape.{of_guest, enforced_findings}
use pve_meta.Shape.Edits.{IsBeside, introduced_nothing_iff}
use pve_meta.Store.{MetaStore, World}
use pve_meta.Api.{done}
use pve_meta.Api.Gates.{check_enforced_iff}
use pve_meta.Api.Wire.{CallerAcl}
use pve_meta.Api.Plan.{PutRequest, Plan, plan_put, unless}
use pve_meta.Api.Checked.{plan_put-IsChecked}

module _ {N F B : Type 0} (numbers : Numbers N F) (libs : Libraries N B)
    (decode : Value N → String ⊎ RawPrefixDef N) (store : MetaStore) ⦃e : Eq N⦄ where
  -- If a request without force is planned for a guest's document, then every finding under an
  -- enforcing schema in the planned document is one that the stored document has, on a path that does
  -- not continue a path that the plan touches, and that no such path continues.
  pub plan_put-IsEnforced :
      (w : World B) (prefixes : List (PrefixDef N)) (req : PutRequest) (acl : CallerAcl)
      (plan : Plan N) (vmid : ℕ)
      → plan_put numbers libs decode store w prefixes req acl ≡ done plan
      → req.force ≡ false
      → plan.doc_id ≡ guest vmid
      → All
          (λ f.
            Memᴰ f (enforced_findings numbers (of_guest prefixes) plan.stored.value)
            × All (λ c. IsBeside c f.path) (map (λ t. t.path) plan.touched))
          (enforced_findings numbers (of_guest prefixes) plan.planned)
  unfolding unless
  plan_put-IsEnforced w prefixes req acl plan vmid h unforced same =
      let (_, _, _, _, (_, _, _, gated)) =
        plan_put-IsChecked numbers libs decode store w prefixes req acl plan h in
      (introduced_nothing_iff _ _ _).0 (
        (check_enforced_iff numbers prefixes vmid plan.stored.value plan.planned plan.touched).0
          (rw (unforced, same) at gated))
