-- ===== src/Prelude/Bits.antt =====
-- The bit operations of C as arithmetic: one equation for the lowest binary digit, and what
-- follows from it at every width.
use Prim.Native.Nat.{ℕ, zero, suc, ◌+◌, ◌-◌, ◌*◌, ◌/◌, ◌%◌, ◌^◌, ◌≤◌, ◌<◌, differ}
use Prim.Native.Nat.{min, bit_and, bit_xor, digits, bit_and-bitwise, bit_xor-bitwise}
use mathlib.Core.Path.{◌≡◌, refl, sym, ap, ◌∙◌}
use native.Mathlib.Nat.{pow-suc, div-div-eq-div-mul}
use native.Mathlib.Omega.{arith}

-- One more unit of fuel changes nothing once the first operand is covered, so no more does.
module _ (base : ℕ → ℕ) (digit : ℕ → ℕ → ℕ) where
  digits_more :
      (fuel x y : ℕ) → x ≤ fuel → digits base digit (suc fuel) x y ≡ digits base digit fuel x y
  digits_more zero zero y h = refl
  digits_more (suc fuel) zero y h = refl
  digits_more zero (suc x) y h = absurd (omega arith)
  digits_more (suc fuel) (suc x) y h =
      omega (arith, digits_more fuel (suc x / 2) (y / 2) (omega arith))

  digits_enough : (k x y : ℕ) → digits base digit (k + x) x y ≡ digits base digit x x y
  digits_enough zero x y = let e : zero + x ≡ x = omega arith in rw e refl
  digits_enough (suc k) x y =
      let e : suc k + x ≡ suc (k + x) = omega arith in
      rw e (digits_more (k + x) x y (omega arith) ∙ digits_enough k x y)

  -- The fuel that is left behind the lowest digit of `suc x`.
  digits_half :
      (x y : ℕ) → digits base digit x (suc x / 2) y ≡ digits base digit (suc x / 2) (suc x / 2) y
  digits_half x y =
      let e : x ≡ x - suc x / 2 + suc x / 2 = omega arith in
      ap (λ k. digits base digit k (suc x / 2) y) e ∙ digits_enough (x - suc x / 2) (suc x / 2) y

  lowest_digit :
      (x y : ℕ)
      → digits base digit (suc x) (suc x) y
        ≡ digits base digit (suc x / 2) (suc x / 2) (y / 2) * 2 + digit (suc x % 2) (y % 2)
  lowest_digit x y = omega (arith, digits_half x (y / 2))

pub xor_lowest : (x y : ℕ) → bit_xor x y ≡ bit_xor (x / 2) (y / 2) * 2 + differ (x % 2) (y % 2)
xor_lowest zero y = omega (arith, bit_xor-bitwise zero y, bit_xor-bitwise zero (y / 2))
xor_lowest (suc x) y =
    bit_xor-bitwise (suc x) y
    ∙ lowest_digit (λ t. t) differ x y
    ∙ ap (λ t. t * 2 + differ (suc x % 2) (y % 2)) (sym (bit_xor-bitwise (suc x / 2) (y / 2)))

differ_cases : (x y : ℕ) → x < 2 → y < 2 → (differ x y < 2) × (differ (differ x y) y ≡ x)
differ_cases zero zero p q = omega arith
differ_cases zero (suc zero) p q = omega arith
differ_cases (suc zero) zero p q = omega arith
differ_cases (suc zero) (suc zero) p q = omega arith
differ_cases (suc (suc x)) y p q = absurd (omega arith)
differ_cases zero (suc (suc y)) p q = absurd (omega arith)
differ_cases (suc zero) (suc (suc y)) p q = absurd (omega arith)

-- The quotient and the remainder of an exclusive or.
xor_halves :
    (a b : ℕ)
    → (bit_xor a b / 2 ≡ bit_xor (a / 2) (b / 2)) × (bit_xor a b % 2 ≡ differ (a % 2) (b % 2))
xor_halves a b =
    let bit : differ (a % 2) (b % 2) < 2 =
      (differ_cases (a % 2) (b % 2) (omega arith) (omega arith)).0 in
    (omega (arith, xor_lowest a b), omega (arith, xor_lowest a b))

xor_cancel_step :
    (a k : ℕ) → bit_xor (bit_xor (a / 2) (k / 2)) (k / 2) ≡ a / 2 → bit_xor (bit_xor a k) k ≡ a
xor_cancel_step a k ih =
    rw (xor_lowest (bit_xor a k) k, (xor_halves a k).0, (xor_halves a k).1, ih)
      (omega (arith, differ_cases (a % 2) (k % 2)))

xor_cancel_fuel : (n a k : ℕ) → a + k ≤ n → bit_xor (bit_xor a k) k ≡ a
xor_cancel_fuel n zero zero h = refl
xor_cancel_fuel zero zero (suc k) h = absurd (omega arith)
xor_cancel_fuel zero (suc a) k h = absurd (omega arith)
xor_cancel_fuel (suc n) zero (suc k) h =
    xor_cancel_step 0 (suc k) (xor_cancel_fuel n (0 / 2) (suc k / 2) (omega arith))
xor_cancel_fuel (suc n) (suc a) k h =
    xor_cancel_step (suc a) k (xor_cancel_fuel n (suc a / 2) (k / 2) (omega arith))

-- Masking twice with one key gives the value back.
pub xor_cancel : (a k : ℕ) → bit_xor (bit_xor a k) k ≡ a
xor_cancel a k = xor_cancel_fuel (a + k) a k (omega arith)

-- An exclusive or is no wider than its operands.
pub xor-lt_pow : (w a b : ℕ) → a < 2 ^ w → b < 2 ^ w → bit_xor a b < 2 ^ w
xor-lt_pow zero zero zero p q = omega arith
xor-lt_pow zero zero (suc b) p q = absurd (omega arith)
xor-lt_pow zero (suc a) b p q = absurd (omega arith)
xor-lt_pow (suc w) a b p q =
    let e : 2 ^ suc w ≡ 2 ^ w * 2 = pow-suc 2 w in
    let bit : differ (a % 2) (b % 2) < 2 =
      (differ_cases (a % 2) (b % 2) (omega arith) (omega arith)).0 in
    omega (arith, xor_lowest a b, xor-lt_pow w (a / 2) (b / 2) (omega arith) (omega arith))

pub and_lowest : (x y : ℕ) → bit_and x y ≡ bit_and (x / 2) (y / 2) * 2 + min (x % 2) (y % 2)
and_lowest zero y = omega (arith, bit_and-bitwise zero y, bit_and-bitwise zero (y / 2))
and_lowest (suc x) y =
    bit_and-bitwise (suc x) y
    ∙ lowest_digit (λ _. zero) min x y
    ∙ ap (λ t. t * 2 + min (suc x % 2) (y % 2)) (sym (bit_and-bitwise (suc x / 2) (y / 2)))

-- `x & 0`, by halving.
and_nothing : (bound x : ℕ) → x ≤ bound → bit_and x zero ≡ zero
and_nothing bound zero h = refl
and_nothing zero (suc x) h = absurd (omega arith)
and_nothing (suc bound) (suc x) h =
    let half : suc x / 2 ≤ bound = omega arith in
    omega (arith, and_nothing bound (suc x / 2) half, and_lowest (suc x) zero)

-- A mask of one bit.
pub bit_and_bit : (k a : ℕ) → bit_and a (2 ^ k) ≡ a / 2 ^ k % 2 * 2 ^ k
bit_and_bit zero a = omega (arith, and_lowest a 1, and_nothing (a / 2) (a / 2) (omega arith))
bit_and_bit (suc k) a =
    let e : 2 ^ suc k ≡ 2 ^ k * 2 = pow-suc 2 k in
    let half : 2 ^ suc k / 2 ≡ 2 ^ k = omega arith in
    let even : 2 ^ suc k % 2 ≡ 0 = omega arith in
    let d : a / 2 / 2 ^ k ≡ a / 2 ^ suc k =
      div-div-eq-div-mul a 2 (2 ^ k) ∙ ap (λ t. a / t) (omega (arith, e)) in
    let s : bit_and a (2 ^ suc k) ≡ bit_and (a / 2) (2 ^ k) * 2 =
      and_lowest a (2 ^ suc k) ∙ rw (half, even) (omega arith) in
    omega (
      arith,
      s,
      bit_and_bit k (a / 2),
      ap (λ (t : ℕ). t % 2 * 2 ^ k) d,
      ap (λ (t : ℕ). a / 2 ^ suc k % 2 * t) e,
    )
