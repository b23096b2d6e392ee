-- ===== src/Frame/Bytes.antt =====
-- Byte order and masking, in the form in which frame.c writes and reads them, with their laws.
use wslay.Prelude.{
  ℕ, zero, suc, ◌+◌, ◌*◌, ◌/◌, ◌%◌, ◌^◌, ◌<◌, ◌≡◌, refl, ap, ap₂, List, [], ◌∷◌, ◌++◌, arith,
  length, take, get_or, All, IsByte, bit_xor,
}
use wslay.Prelude.Bits.{xor_cancel}
use native.Mathlib.Nat.{pow-suc}

-- The lowest `n` bytes of a number, the most significant first: `htons` or `htobe64`, and the
-- `memcpy` of the result.
unfoldable pub be_bytes : ℕ → ℕ → List ℕ
be_bytes zero x = []
be_bytes (suc n) x = x / 256 ^ n % 256 ∷ be_bytes n x

-- The number that bytes stand for behind `acc`, the most significant first: the `memcpy` to the end
-- of a zero `uint64_t`, and `be64toh`.
unfoldable pub be_number : ℕ → List ℕ → ℕ
be_number acc [] = acc
be_number acc (x ∷ xs) = be_number (acc * 256 + x) xs

-- `temp[i] = datamark[i] ^ omaskkey[(opayloadoff + i) % 4]`
unfoldable pub mask_bytes : List ℕ → ℕ → List ℕ → List ℕ
mask_bytes key off [] = []
mask_bytes key off (x ∷ xs) = bit_xor x (get_or key (off % 4) 0) ∷ mask_bytes key (off + 1) xs

-- `off += r` on a `uint64_t`
abbrev pub add64 : ℕ → ℕ → ℕ
add64 a b = (a + b) % 2 ^ 64

pub length-be_bytes : (n x : ℕ) → length (be_bytes n x) ≡ n
unfolding be_bytes
length-be_bytes zero x = refl
length-be_bytes (suc n) x = ap suc (length-be_bytes n x)

pub length-mask_bytes :
    (key : List ℕ) (off : ℕ) (xs : List ℕ) → length (mask_bytes key off xs) ≡ length xs
unfolding mask_bytes
length-mask_bytes key off [] = refl
length-mask_bytes key off (x ∷ xs) = ap suc (length-mask_bytes key (off + 1) xs)

pub mask_bytes-append :
    (key : List ℕ) (off : ℕ) (xs ys : List ℕ)
    → mask_bytes key off (xs ++ ys) ≡ mask_bytes key off xs ++ mask_bytes key (off + length xs) ys
unfolding mask_bytes
mask_bytes-append key off [] ys = let e : off + 0 ≡ off = omega arith in rw e
mask_bytes-append key off (x ∷ xs) ys =
    let e : off + suc (length xs) ≡ off + 1 + length xs = omega arith in
    rw e (ap (λ t. bit_xor x (get_or key (off % 4) 0) ∷ t) (mask_bytes-append key (off + 1) xs ys))

pub take-mask_bytes :
    (n : ℕ) (key : List ℕ) (off : ℕ) (xs : List ℕ)
    → take n (mask_bytes key off xs) ≡ mask_bytes key off (take n xs)
unfolding mask_bytes
take-mask_bytes zero key off xs = refl
take-mask_bytes (suc n) key off [] = refl
take-mask_bytes (suc n) key off (x ∷ xs) =
    ap (λ t. bit_xor x (get_or key (off % 4) 0) ∷ t) (take-mask_bytes n key (off + 1) xs)

-- Masking twice with one key, from one offset, gives the bytes back.
pub mask_bytes_cancel :
    (key : List ℕ) (off : ℕ) (xs : List ℕ) → mask_bytes key off (mask_bytes key off xs) ≡ xs
unfolding mask_bytes
mask_bytes_cancel key off [] = refl
mask_bytes_cancel key off (x ∷ xs) =
    ap₂ ◌∷◌ (xor_cancel x (get_or key (off % 4) 0)) (mask_bytes_cancel key (off + 1) xs)

-- Reading the two or eight bytes that a number was written as.
pub be_number-be_bytes_2 : (x : ℕ) → x < 2 ^ 16 → be_number 0 (be_bytes 2 x) ≡ x
unfolding be_number be_bytes
be_number-be_bytes_2 x h = omega arith

pub be_number-be_bytes_8 : (x : ℕ) → x < 2 ^ 64 → be_number 0 (be_bytes 8 x) ≡ x
unfolding be_number be_bytes
be_number-be_bytes_8 x h = omega arith

quotient : (a p low : ℕ) → low < p → (a * p + low) / p ≡ a
quotient a p low h = grind arith

-- The bytes fill the digits below `acc`.
record Digits (acc n number : ℕ) : Type 0 where
  low : ℕ
  sum : number ≡ acc * 256 ^ n + low
  small : low < 256 ^ n

be_number-Digits :
    (xs : List ℕ) (acc : ℕ) → All IsByte xs → Digits acc (length xs) (be_number acc xs)
unfolding be_number
be_number-Digits [] acc h = record { low = 0; sum = omega arith; small = omega arith }
be_number-Digits (x ∷ xs) acc h =
    let r = be_number-Digits xs (acc * 256 + x) h.1 in
    let e : 256 ^ suc (length xs) ≡ 256 ^ length xs * 256 = pow-suc 256 (length xs) in
    record {
      low = x * 256 ^ length xs + r.low;
      sum = omega (arith, ap (λ (t : ℕ). acc * t) e);
      small = grind (arith, ap (λ (t : ℕ). t) e, h.0);
    }

pub be_number-lt : (xs : List ℕ) → All IsByte xs → be_number 0 xs < 256 ^ length xs
be_number-lt xs h = omega (arith, be_number-Digits xs 0 h)

-- Writing the number that some bytes stand for gives the bytes back, whatever `acc` holds above.
pub be_bytes-be_number :
    (xs : List ℕ) (acc : ℕ) → All IsByte xs → be_bytes (length xs) (be_number acc xs) ≡ xs
unfolding be_bytes be_number
be_bytes-be_number [] acc h = refl
be_bytes-be_number (x ∷ xs) acc h =
    ap₂ ◌∷◌ (leading (be_number-Digits xs (acc * 256 + x) h.1))
      (be_bytes-be_number xs (acc * 256 + x) h.1)
  where
    leading :
        Digits (acc * 256 + x) (length xs) (be_number (acc * 256 + x) xs)
        → be_number (acc * 256 + x) xs / 256 ^ length xs % 256 ≡ x
    leading d = omega (
      arith,
      h.0,
      ap (λ (t : ℕ). t / 256 ^ length xs) d.sum,
      quotient (acc * 256 + x) (256 ^ length xs) d.low d.small,
    )
