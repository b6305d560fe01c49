-- ===== src/Json/Numbers.antt =====
-- What the program asks of the numbers of `serde_json` and of its printer, as a record of
-- operations, and the integers that `as_i64` answers.
use pve_meta.Shared.{ℕ, String, Bool, Option}
use pve_meta.Json.{Value}

-- `pos n` is n, and `negsuc n` is -n - 1.
pub data ℤ : Type 0 where
  pos negsuc : ℕ → ℤ

-- `F` is `f64`, `less` its `<`, `display` the text of a value and `float_text`
-- that of an `f64`.
pub record Numbers (N F : Type 0) : Type 0 where
  pub as_i64 : N → Option ℤ
  pub is_i64 : N → Bool
  pub is_u64 : N → Bool
  pub as_f64 : N → Option F
  pub less : F → F → Bool
  pub display : Value N → String
  pub float_text : F → String
