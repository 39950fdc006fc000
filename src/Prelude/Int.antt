-- ===== src/Prelude/Int.antt =====
-- Signed integers, as the source's JSON numbers have them; `negsuc n` is -(n + 1).
use Prim.Native.Nat.{ℕ, max}
use mathlib.Core.Bool.{Bool, true, false}
use home_lab.Prelude.Tests.{ltb, ◌==◌}

pub data ℤ : Type 0 where
  pos : ℕ → ℤ
  negsuc : ℕ → ℤ

-- max(z, n) where n is not negative
abbrev pub max_ℕ : ℤ → ℕ → ℕ
max_ℕ (pos m) n = max m n
max_ℕ (negsuc m) n = n

abbrev pub int_eq : ℤ → ℤ → Bool
int_eq (pos a) (pos b) = a == b
int_eq (negsuc a) (negsuc b) = a == b
int_eq _ _ = false

-- `a < b`
abbrev pub int_lt : ℤ → ℤ → Bool
int_lt (pos a) (pos b) = ltb a b
int_lt (pos a) (negsuc b) = false
int_lt (negsuc a) (pos b) = true
int_lt (negsuc a) (negsuc b) = ltb b a
