-- ===== src/Frame/Recv/Bits.antt =====
-- The bit fields of the two header bytes, as read by frame.c, against their arithmetic.
use wslay.Prelude.{
  ℕ, ◌+◌, ◌*◌, ◌/◌, ◌^◌, ◌<◌, ◌≡◌, refl, Bool, true, ◌==◌, ltb, ◌&&◌, all_below, all_below_eq,
  all_below_sound, bit_and, arith,
}
use wslay.Frame.Wire.{mask_flag}

abbrev pub fin_of : ℕ → ℕ
fin_of b = bit_and (b / 2 ^ 7) 1

abbrev pub rsv_of : ℕ → ℕ
rsv_of b = bit_and (b / 2 ^ 4) 7

abbrev pub opcode_of : ℕ → ℕ
opcode_of b = bit_and b 0xf

abbrev pub length_of : ℕ → ℕ
length_of b = bit_and b 0x7f

first_table : all_below 256 (λ b. b == fin_of b * 128 + rsv_of b * 16 + opcode_of b) ≡ true
unfolding all_below
first_table = refl

pub first_fields : (b : ℕ) → b < 256 → b ≡ fin_of b * 128 + rsv_of b * 16 + opcode_of b
first_fields =
    all_below_eq 256 (λ b. b) (λ b. fin_of b * 128 + rsv_of b * 16 + opcode_of b) first_table

second_table : all_below 256 (λ b. b == mask_flag (fin_of b == 1) + length_of b) ≡ true
unfolding all_below
second_table = refl

pub second_fields : (b : ℕ) → b < 256 → b ≡ mask_flag (fin_of b == 1) + length_of b
second_fields =
    all_below_eq 256 (λ b. b) (λ b. mask_flag (fin_of b == 1) + length_of b) second_table

ranges : ℕ → Bool
ranges b = ltb (fin_of b) 2 && (ltb (rsv_of b) 8 && (ltb (opcode_of b) 16 && ltb (length_of b) 128))

ranges_table : all_below 256 ranges ≡ true
unfolding all_below ranges
ranges_table = refl

pub field_ranges :
    (b : ℕ) → b < 256 → (fin_of b < 2) × (rsv_of b < 8) × (opcode_of b < 16) × (length_of b < 128)
unfolding ranges
field_ranges b h = ground (arith, all_below_sound 256 ranges b ranges_table h)
