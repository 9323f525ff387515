-- ===== src/Base/Integers.antt =====
-- Go's int, int64 and time.Duration as integers; a sized integer keeps its wrap-around.
use Prim.Native.Nat.{ℕ, suc, ◌+◌, ◌-◌, ◌≤◌, ◌<◌, ◌%◌, ◌^◌}
use mathlib.Core.Path.{◌≡◌, ap}
use mathlib.Core.Bool.{Bool, true, false}
use native.Mathlib.Omega.{arith}
use nexgo.Base.Tests.{ltb, leb, nat_beq, nat_beq_iff, if◌then◌else◌}

-- `negsuc n` is -(n + 1).
pub data ℤ : Type 0 where
  pos : ℕ → ℤ
  negsuc : ℕ → ℤ

-- max(z, 0) and max(-z, 0)
abbrev pub pos_part : ℤ → ℕ
pos_part (pos n) = n
pos_part (negsuc n) = 0

abbrev pub neg_part : ℤ → ℕ
neg_part (pos n) = 0
neg_part (negsuc n) = suc n

abbrev pub ltb_ℤ : ℤ → ℤ → Bool
ltb_ℤ a b = ltb (pos_part a + neg_part b) (pos_part b + neg_part a)

abbrev pub leb_ℤ : ℤ → ℤ → Bool
leb_ℤ a b = leb (pos_part a + neg_part b) (pos_part b + neg_part a)

abbrev pub ◌≤ℤ◌ : ℤ → ℤ → Type 0
◌≤ℤ◌ a b = pos_part a + neg_part b ≤ pos_part b + neg_part a

infix 50 ◌≤ℤ◌
abbrev pub is_zero : ℤ → Bool
is_zero (pos n) = nat_beq n 0
is_zero (negsuc n) = false

abbrev pub int_beq : ℤ → ℤ → Bool
int_beq (pos n) (pos m) = nat_beq n m
int_beq (negsuc n) (negsuc m) = nat_beq n m
int_beq _ _ = false

-- The test `z == y` answers true only on equal integers.
pub int_beq-eq : (z y : ℤ) → int_beq z y ≡ true → z ≡ y
int_beq-eq (pos n) (pos m) h = ap pos ((nat_beq_iff n m).0 h)
int_beq-eq (negsuc n) (negsuc m) h = ap negsuc ((nat_beq_iff n m).0 h)
int_beq-eq (pos n) (negsuc m) h = cc
int_beq-eq (negsuc n) (pos m) h = cc

-- The tests `z <= 0` and `z < 0`
abbrev pub not_positive : ℤ → Bool
not_positive (pos n) = nat_beq n 0
not_positive (negsuc n) = true

abbrev pub is_negative : ℤ → Bool
is_negative (pos n) = false
is_negative (negsuc n) = true

-- The value that the low `w + 1` bits of `n` stand for, in two's complement.
unfoldable pub wrap : ℕ → ℕ → ℤ
wrap w n = let r = n % 2 ^ suc w in if ltb r (2 ^ w) then pos r else negsuc (2 ^ suc w - suc r)

-- A number below 2 ^ w is kept.
pub wrap-eq : (w n : ℕ) → n < 2 ^ w → n < 2 ^ suc w → wrap w n ≡ pos n
unfolding wrap
wrap-eq w n h k = ground (arith, native.Mathlib.Nat.mod-eq_of_lt k)
