-- ===== src/Frame/Recv/Illegal.antt =====
-- Input that no legal frame begins: what the refusals of `wslay_frame_recv` report.
use wslay.Prelude.{
  ℕ, ◌+◌, ◌*◌, ◌^◌, ◌≤◌, ◌<◌, ◌≡◌, sym, ap, ◌∙◌, ◌⊎◌, inl, inr, Bool, true, ltb, ◌==◌, ◌&&◌, ◌||◌,
  if◌then◌else◌, List, ◌∷◌, ◌++◌, arith, length,
}
use wslay.Prelude.Bits.{bit_and_bit}
use wslay.Protocol.{is_ctrl_frame}
use wslay.Frame.Bytes.{
  be_bytes, be_number, length-be_bytes, be_number-be_bytes_2, be_number-be_bytes_8,
}
use wslay.Frame.Wire.{
  Header, short_length, extended_length, first, mask_flag, second, prefix, IsLegal,
}
use wslay.Frame.Unique.{
  append_inj, cons_inj, second_inj, short_length_lt, LengthForm, in_second, in_two, in_eight,
  length_form,
}
use wslay.Frame.Recv.{bad_length}

-- The header of no legal frame begins the input.
abbrev pub IsIllegal : List ℕ → Type 0
IsIllegal input = (h : Header) (r : List ℕ) → IsLegal h → prefix h ++ r ≡ input → ⊥

-- A control frame with an extended length, or in parts.
pub bad_ctrl-IsIllegal :
    (fin rsv opcode pl : ℕ) (m : Bool) (rest : List ℕ)
    → fin < 2
    → rsv < 8
    → opcode < 16
    → pl < 128
    → (is_ctrl_frame opcode && (ltb 125 pl || fin == 0)) ≡ true
    → IsIllegal ((fin * 128 + rsv * 16 + opcode) ∷ (mask_flag m + pl) ∷ rest)
bad_ctrl-IsIllegal fin rsv opcode pl m rest a b c d bad h r legal e =
    let x = fin * 128 + rsv * 16 + opcode in
    let (firsts, behind) = cons_inj (first h) x e in
    let (seconds, _) = cons_inj (second h) (mask_flag m + pl) behind in
    let (_, short) =
      second_inj h.mask m (short_length h.payload_length) pl (short_length_lt h.payload_length) d
        seconds in
    let same_op : h.opcode ≡ opcode =
      omega (arith, firsts, legal.fin, legal.rsv, legal.opcode, a, b, c) in
    let same_fin : h.fin ≡ fin =
      omega (arith, firsts, legal.fin, legal.rsv, legal.opcode, a, b, c) in
    let ctrl : is_ctrl_frame opcode ≡ true = ground (arith, bad) in
    let ctrl_h : is_ctrl_frame h.opcode ≡ true = ap is_ctrl_frame same_op ∙ ctrl in
    let whole : fin ≡ 1 = sym same_fin ∙ legal.ctrl_whole ctrl_h in
    let fits : h.payload_length ≤ 125 = legal.ctrl_short ctrl_h in
    let exact : short_length h.payload_length ≡ h.payload_length = ground (arith, fits) in
    let small : pl ≤ 125 = omega (arith, fits, exact, short) in
    ground (arith, bad, ctrl, whole, small)

-- A length that is not in its shortest form, or too large.
pub bad_length-IsIllegal :
    (reqread x : ℕ) (m : Bool) (xs rest : List ℕ)
    → (reqread ≡ 2) ⊎ (reqread ≡ 8)
    → length xs ≡ reqread
    → bad_length reqread (be_number 0 xs) ≡ true
    → IsIllegal (x ∷ (mask_flag m + (if reqread == 8 then 127 else 126)) ∷ (xs ++ rest))
unfolding bad_length
bad_length-IsIllegal reqread x m xs rest which size bad h r legal e =
    let code : ℕ = if reqread == 8 then 127 else 126 in
    let (firsts, behind) = cons_inj (first h) x e in
    let (seconds, lengths) = cons_inj (second h) (mask_flag m + code) behind in
    let (_, short) =
      second_inj h.mask m (short_length h.payload_length) code (short_length_lt h.payload_length)
        (ground arith) seconds in
    by_form which (length_form h.payload_length) short lengths
  where
    by_form :
        (reqread ≡ 2) ⊎ (reqread ≡ 8)
        → LengthForm h.payload_length
        → short_length h.payload_length ≡ (if reqread == 8 then 127 else 126)
        → extended_length h.payload_length ++ r ≡ xs ++ rest
        → ⊥
    by_form (inl two) (in_two a b c d) short lengths =
        let (digits, _) =
          append_inj (be_bytes 2 h.payload_length) xs
            (length-be_bytes 2 h.payload_length ∙ sym (size ∙ two))
            (ap (λ t. t ++ r) (sym d) ∙ lengths) in
        let number : h.payload_length ≡ be_number 0 xs =
          sym (be_number-be_bytes_2 h.payload_length b) ∙ ap (be_number 0) digits in
        ground (arith, two, bad, number, a)
    by_form (inr eight) (in_eight a c d) short lengths =
        let (digits, _) =
          append_inj (be_bytes 8 h.payload_length) xs
            (length-be_bytes 8 h.payload_length ∙ sym (size ∙ eight))
            (ap (λ t. t ++ r) (sym d) ∙ lengths) in
        let number : h.payload_length ≡ be_number 0 xs =
          sym (be_number-be_bytes_8 h.payload_length (omega (arith, legal.size)))
          ∙ ap (be_number 0) digits in
        let top : be_number 0 xs < 2 ^ 63 = omega (arith, legal.size, number) in
        ground (arith, eight, bad, number, a, top, bit_and_bit 63 (be_number 0 xs))
    by_form w (in_second a b c) short lengths = ground (arith, w, short, b, a)
    by_form (inl two) (in_eight a c d) short lengths = ground (arith, two, short, c)
    by_form (inr eight) (in_two a b c d) short lengths = ground (arith, eight, short, c)
