-- ===== src/DocPath/Parse.antt =====
-- `Path::parse` of path.rs: the dotted and the slash-separated form of a path.
pub mod RoundTrip
use pve_meta.Shared.{ℕ, String, ◌≡◌, refl, List, [], ◌∷◌, str_eq, if◌then◌else◌}
use pve_meta.Shared.Text.{contains_char, strip_prefix_char, split}
use pve_meta.DocPath.{DocPath, root, is_valid_segment}
use pve_meta.Error.{invalid_path, Result, ok, err, ◌>>=◌}

-- The loop over the parts, `text` being what the error names.
parse_parts : String → List String → Result (List String)
parse_parts text [] = ok []
parse_parts text (part ∷ parts) =
    let rest = parse_parts text parts in
    if is_valid_segment part
    then (do segments ← rest; ok (part ∷ segments))
    else err (invalid_path text)

-- The separator: a slash, if the text has one.
separator : String → ℕ
separator s = if contains_char b'/' s then b'/' else b'.'

from_segments : List String → DocPath
from_segments segments = record { segments = segments }

unfoldable pub parse : String → Result DocPath
unfolding parse_parts separator from_segments contains_char strip_prefix_char split is_valid_segment
parse s =
    let trimmed = strip_prefix_char b'/' s in
    if str_eq trimmed ""
    then ok root
    else do segments ← parse_parts s (split (separator s) trimmed); ok (from_segments segments)

parse_forms :
    (parse "a.b.c" ≡ ok (from_segments ("a" ∷ "b" ∷ "c" ∷ [])))
    × (parse "/a/b" ≡ ok (from_segments ("a" ∷ "b" ∷ [])))
    × (parse "/" ≡ ok root)
    × (parse "" ≡ ok root)
    × (parse "scopes/svc@pve!traefik" ≡ ok (from_segments ("scopes" ∷ "svc@pve!traefik" ∷ [])))
    × (parse "a.b..c" ≡ err (invalid_path "a.b..c"))
unfolding parse
parse_forms = (refl, refl, refl, refl, refl, refl)
