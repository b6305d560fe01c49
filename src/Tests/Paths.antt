-- ===== src/Tests/Paths.antt =====
-- The properties of paths at concrete paths.
use pve_meta.Shared.{◌≡◌, refl, [], ◌∷◌}
use pve_meta.DocPath.{DocPath, is_valid_segment, display}
use pve_meta.DocPath.Parse.{parse}
use pve_meta.DocPath.Parse.RoundTrip.{parse-display}
use pve_meta.Error.{ok}

abbrev ab : DocPath
ab = record { segments = "a" ∷ "b" ∷ [] }

abbrev authid : DocPath
authid = record { segments = "scopes" ∷ "svc@pve!traefik" ∷ [] }

parse-display_example : parse (display authid) ≡ ok authid
unfolding is_valid_segment
parse-display_example = parse-display authid (refl, (refl, tt))
