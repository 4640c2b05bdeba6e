-- ===== src/Prelude/Int.antt =====
-- Signed bounds: a difference of two numbers that may lie below 0.
use Prim.Native.Nat.{ℕ, ◌+◌, ◌-◌}
use mathlib.Core.Path.{◌≡◌}
use mathlib.Core.Bool.{Bool, true, false}
use native.Mathlib.Omega.{arith}
use anycall.Prelude.Tests.{leb, if◌then◌else◌}

-- `negsuc n` is -(n + 1).
pub data ℤ : Type 0 where
  pos : ℕ → ℤ
  negsuc : ℕ → ℤ

-- a - b, as an integer
unfoldable pub sub_ℕ : ℕ → ℕ → ℤ
sub_ℕ a b = if leb b a then pos (a - b) else negsuc (b - a - 1)

-- n ≤ z
unfoldable pub at_most : ℤ → ℕ → Bool
at_most (pos m) n = leb n m
at_most (negsuc m) n = false

-- z ≤ n
unfoldable pub at_least : ℤ → ℕ → Bool
at_least (pos m) n = leb m n
at_least (negsuc m) n = true

pub at_most-sub_ℕ : (a b n : ℕ) → at_most (sub_ℕ a b) n ≡ leb (n + b) a
unfolding at_most sub_ℕ
at_most-sub_ℕ a b n = ground arith

pub at_least-sub_ℕ : (a b n : ℕ) → at_least (sub_ℕ a b) n ≡ leb a (n + b)
unfolding at_least sub_ℕ
at_least-sub_ℕ a b n = ground arith
