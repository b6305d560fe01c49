-- ===== src/Patch/Clean.antt =====
-- Merge patches keep a document that passes the lint, and maps without a double key.
use pve_meta.Shared.{[], Eq, ◌≡◌, refl}
use pve_meta.DocPath.{root}
use pve_meta.Json.{Value, object, Fields}
use pve_meta.Json.WellFormed.{IsWellFormed, unique_keys}
use pve_meta.Model.{lint}
use pve_meta.Model.Clean.{lint_iff, passes_lint}
use pve_meta.Patch.{apply_patch}
use pve_meta.Patch.Keeps.{IsFitPatch, apply_fields-Holds}

module _ {N : Type 0} ⦃e : Eq N⦄ where
  -- A patch whose stored values pass the lint takes a document that passes the lint to one that
  -- passes it; so no delete marker of the patch is stored.
  pub apply_patch-lint :
      (doc : Value N) (patch : Fields N)
      → lint doc ≡ []
      → IsFitPatch (passes_lint N) patch
      → lint (apply_patch doc (object patch)).0 ≡ []
  unfolding apply_patch
  apply_patch-lint (object doc) patch h c = (lint_iff _).1 (
    refl,
    apply_fields-Holds (passes_lint N) patch patch root doc c ((lint_iff (object doc)).0 h).1,
  )
  apply_patch-lint doc patch h c = h

  -- A patch whose stored values have no map with a double key takes a document without such a map
  -- to a document without one.
  pub apply_patch-IsWellFormed :
      (doc : Value N) (patch : Fields N)
      → IsWellFormed doc
      → IsFitPatch (unique_keys N) patch
      → IsWellFormed (apply_patch doc (object patch)).0
  unfolding apply_patch
  apply_patch-IsWellFormed (object doc) patch h c =
      apply_fields-Holds (unique_keys N) patch patch root doc c h
  apply_patch-IsWellFormed doc patch h c = h
