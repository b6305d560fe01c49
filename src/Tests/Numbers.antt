-- ===== src/Tests/Numbers.antt =====
-- Documents whose numbers are natural numbers.
use pve_meta.Shared.{ℕ, Eq, ◌==◌, ==_iff, String}
use pve_meta.Json.{Value, Fields, end, field, number}

instance abbrev pub nat_eq : Eq ℕ
nat_eq = record { beq = ◌==◌; beq_iff = ==_iff }

abbrev pub num : ℕ → Value ℕ
num n = number n

abbrev pub one : String → Value ℕ → Fields ℕ
one k v = field k v end
