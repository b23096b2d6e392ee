-- ===== src/Frame/Send/Header.antt =====
-- The header that `wslay_frame_send` builds is the header of the frame in RFC 6455.
use wslay.Prelude.{
  ℕ, ◌+◌, ◌*◌, ◌/◌, ◌%◌, ◌^◌, ◌≤◌, ◌<◌, ◌≡◌, refl, ap, ap₂, ◌∙◌, true, false, ltb, ◌==◌, ◌&&◌,
  if◌then◌else◌, none, some, ◌∷◌, arith, all_below, all_below_eq, bit_or, bit_and,
}
use wslay.Protocol.{is_ctrl_frame, Iocb}
use wslay.Frame.Wire.{short_length, extended_length, first, second, prefix, iocb_header}
use wslay.Frame.Context.{SendContext, FrameCallbacks, At}
use wslay.Frame.Send.{first_byte, mask_bit, length_field, add_mask, prepare}

-- A control block that is accepted: the fields have their widths, and the payload is not too long.
pub record IsSendable (iocb : Iocb) : Type 0 where
  pub fin : iocb.fin < 2
  pub rsv : iocb.rsv < 8
  pub opcode : iocb.opcode < 16
  pub size : iocb.payload_length < 2 ^ 63
  pub ctrl_short : is_ctrl_frame iocb.opcode ≡ true → iocb.payload_length ≤ 125

abbrev first_bits : ℕ → ℕ → ℕ → ℕ
first_bits fin rsv opcode =
    bit_or (bit_or (bit_and (fin * 2 ^ 7) 0x80) (bit_and (rsv * 2 ^ 4) 0x70)) (bit_and opcode 0xf)

first_table : all_below 256 (λ x. first_bits (x / 128) (x / 16 % 8) (x % 16) == x) ≡ true
unfolding all_below
first_table = refl

first_byte-first : {iocb : Iocb} → IsSendable iocb → first_byte iocb ≡ first (iocb_header iocb)
unfolding first_byte
first_byte-first {iocb} s =
    let x = first (iocb_header iocb) in
    let a : iocb.fin ≡ x / 128 = omega arith in
    let b : iocb.rsv ≡ x / 16 % 8 = omega arith in
    let c : iocb.opcode ≡ x % 16 = omega arith in
    ap₂ (λ p q. first_bits p q iocb.opcode) a b
    ∙ ap (first_bits (x / 128) (x / 16 % 8)) c
    ∙ all_below_eq 256 (λ x. first_bits (x / 128) (x / 16 % 8) (x % 16)) (λ x. x) first_table x
        (omega arith)

abbrev second_bits : ℕ → ℕ → ℕ
second_bits mask len = bit_or (bit_and (mask * 2 ^ 7) 0x80) len

second_table : all_below 256 (λ x. second_bits (x / 128) (x % 128) == x) ≡ true
unfolding all_below
second_table = refl

second_bits-sum : (mask len : ℕ) → mask < 2 → len < 128 → second_bits mask len ≡ mask * 128 + len
second_bits-sum mask len p q =
    let x = mask * 128 + len in
    let a : mask ≡ x / 128 = omega arith in
    let b : len ≡ x % 128 = omega arith in
    ap₂ second_bits a b
    ∙ all_below_eq 256 (λ x. second_bits (x / 128) (x % 128)) (λ x. x) second_table x (omega arith)

second_byte-second :
    (iocb : Iocb)
    → bit_or (mask_bit iocb) (short_length iocb.payload_length) ≡ second (iocb_header iocb)
unfolding mask_bit
second_byte-second iocb =
    second_bits-sum (if iocb.mask then 1 else 0) (short_length iocb.payload_length) (ground arith)
      (ground arith)
    ∙ ap (λ t. t + short_length iocb.payload_length) (ground arith)

pub length_field-short :
    (n : ℕ) → n < 2 ^ 63 → length_field n ≡ some (short_length n, extended_length n)
unfolding length_field
length_field-short n h = ground arith

pub length_field-large : (n : ℕ) → 2 ^ 63 ≤ n → length_field n ≡ none
unfolding length_field
length_field-large n h = ground arith

module _ {W : Type 0} (cb : FrameCallbacks W) where
  -- An acceptable control block gets the header of its frame.
  pub prepare-header :
      {iocb : Iocb} (s : At SendContext W)
      → IsSendable iocb
      → prepare cb iocb s ≡ add_mask cb iocb (prefix (iocb_header iocb)) s
  unfolding prepare
  prepare-header {iocb} s k =
      let fine : (is_ctrl_frame iocb.opcode && ltb 125 iocb.payload_length) ≡ false =
        ground (arith, k.ctrl_short) in
      rw (fine, length_field-short iocb.payload_length k.size)
        (ap₂ (λ a b. add_mask cb iocb (a ∷ b ∷ extended_length iocb.payload_length) s)
          (first_byte-first k) (second_byte-second iocb))
