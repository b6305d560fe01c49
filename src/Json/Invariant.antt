-- ===== src/Json/Invariant.antt =====
-- An invariant of maps at every depth, by what the map operations need of it: the patches and the
-- views are proved to keep any such invariant.
use pve_meta.Shared.{String, ◌≡◌, some}
use pve_meta.Json.{Value, object, Fields, end, get, insert, shift_remove}

pub record MapInvariant (N : Type 0) : Type 1 where
  pub Holds : Fields N → Type 0
  -- what may be stored under a key
  pub Fits : String → Value N → Type 0
  pub AllowsObject : String → Type 0
  pub holds_empty : Holds end
  pub holds_removed : (k : String) (f : Fields N) → Holds f → Holds (shift_remove k f)
  pub holds_inserted :
      (k : String) (v : Value N) (f : Fields N) → Fits k v → Holds f → Holds (insert k v f)
  pub object_fits : (k : String) (f : Fields N) → AllowsObject k → Holds f → Fits k (object f)
  pub holds_inside :
      (k : String) (f inner : Fields N) → Holds f → get k f ≡ some (object inner) → Holds inner
