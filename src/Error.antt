-- ===== src/Error.antt =====
-- crates/pve-meta-core/src/error.rs: the error type of the crate, and its `Result`.
use Prim.Native.String.{◌++◌ as concat}
use pve_meta.Shared.Text.{join}
use pve_meta.Shared.Decimal.{to_string}
use pve_meta.Format.{ext}
use pve_meta.DocId
use pve_meta.Model.{display_lint}
use pve_meta.Shared.{map, ℕ, String, List, Option}
use pve_meta.Format.{Format}
use pve_meta.DocId.{DocId}
use pve_meta.Model.{Lint}

pub record Location : Type 0 where
  pub line : ℕ
  pub column : ℕ

-- The errors of the standard library and of `anyhow` are their messages.
pub data Error : Type 0 where
  parse : Format → String → Option Location → Error
  lint : List Lint → Error
  digest_mismatch : String → String → Error
  not_found : DocId → Error
  too_large : ℕ → ℕ → Error
  invalid_path : String → Error
  invalid_name : String → Error
  registry : String → Error
  unavailable : String → Error
  io : String → Error
  other : String → Error

pub data Result {ℓ} (A : Type ℓ) : Type ℓ where
  ok : A → Result A
  err : Error → Result A

infixl 5 ◌>>=◌
abbrev pub ◌>>=◌ {ℓ κ} : {A : Type ℓ} {B : Type κ} → Result A → (A → Result B) → Result B
ok a >>= f = f a
err e >>= f = err e

infixl 5 ◌>>◌
abbrev pub ◌>>◌ {κ} : {B : Type κ} → Result (Unit {0}) → Result B → Result B
m >> k = m >>= λ _. k

-- `Display` of an error
unfoldable pub display_error : Error → String
display_error (Error.parse format msg at) =
    concat "failed to parse " (concat (ext format) (concat " document: " msg))
display_error (Error.lint lints) =
    concat "document failed validation: " (join "; " (map display_lint lints))
display_error (Error.digest_mismatch expected actual) =
    concat "digest mismatch: expected " (concat expected (concat ", actual " actual))
display_error (Error.not_found id) = concat "not found: " (DocId.display id)
display_error (Error.too_large size max) =
    concat "document too large: "
      (concat (to_string size) (concat " bytes (max " (concat (to_string max) " bytes)")))
display_error (Error.invalid_path msg) = concat "invalid path: " msg
display_error (Error.invalid_name msg) = concat "invalid name: " msg
display_error (Error.registry msg) = concat "invalid registry file: " msg
display_error (Error.unavailable msg) = concat "cluster filesystem not available: " msg
display_error (Error.io msg) = msg
display_error (Error.other msg) = msg
