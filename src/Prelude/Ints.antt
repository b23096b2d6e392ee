-- ===== src/Prelude/Ints.antt =====
-- The signed results of C functions.
use Prim.Native.Nat.{ℕ}
use mathlib.Core.Bool.{Bool, true, false}
use Prim.Native.Nat.{compare, Ordering}

-- `negsuc n` is -(n + 1).
pub data ℤ : Type 0 where
  pos : ℕ → ℤ
  negsuc : ℕ → ℤ

-- `r != 0`
abbrev pub is_nonzero : ℤ → Bool
is_nonzero (pos n) = elim (compare n 0) [ Ordering.eq ↦ false | _ ↦ true ]
is_nonzero (negsuc n) = true

abbrev pub same_int : ℤ → ℤ → Bool
same_int (pos a) (pos b) = elim (compare a b) [ Ordering.eq ↦ true | _ ↦ false ]
same_int (negsuc a) (negsuc b) = elim (compare a b) [ Ordering.eq ↦ true | _ ↦ false ]
same_int _ _ = false
