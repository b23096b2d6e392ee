-- ===== src/Frame/Unique.antt =====
-- The framing of RFC 6455 can be read in one way only. Nothing here is code of the library.
use wslay.Prelude.{
  ℕ, ◌+◌, ◌^◌, ◌<◌, ◌≤◌, ◌≡◌, refl, sym, ap, ap₂, ◌∙◌, inl, inr, arith, Bool, true, false, ltb,
  ltb→lt, ltb→ge, Bool-cases, if◌then◌else◌, List, [], ◌∷◌, ◌++◌, length, take, drop, take-append,
  drop-append, take-append-drop, take_all, nil_of_length, length-take, length-drop,
}
use mathlib.Core.List.{append_assoc}
use wslay.Frame.Bytes.{
  be_bytes, be_number, length-be_bytes, be_number-be_bytes_2, be_number-be_bytes_8, mask_bytes,
  length-mask_bytes,
}
use wslay.Frame.Wire.{
  Header, short_length, extended_length, first, mask_flag, second, prefix, header, IsLegal, masked,
  masked_cancel, masked-append, masked-nil, frame, frame_lem,
}

module _ {ℓ} {A : Type ℓ} where
  pub append_inj :
      (xs ys : List A) {r s : List A}
      → length xs ≡ length ys
      → xs ++ r ≡ ys ++ s
      → (xs ≡ ys) × (r ≡ s)
  append_inj xs ys {r} {s} n e = (
    sym (take-append xs r) ∙ ap₂ take n e ∙ take-append ys s,
    sym (drop-append xs r) ∙ ap₂ drop n e ∙ drop-append ys s,
  )

  pub cons_inj : (x y : A) {xs ys : List A} → x ∷ xs ≡ y ∷ ys → (x ≡ y) × (xs ≡ ys)
  cons_inj x y {xs} {ys} e = (ap (head_or x) e, ap (drop 1) e)
    where
      head_or : A → List A → A
      head_or d [] = d
      head_or d (z ∷ zs) = z

-- The second byte tells the mask flag and the short length.
pub second_inj :
    (m m' : Bool) (a b : ℕ)
    → a < 128
    → b < 128
    → mask_flag m + a ≡ mask_flag m' + b
    → (m ≡ m') × (a ≡ b)
second_inj true true a b p q e = (refl, omega (arith, e))
second_inj false false a b p q e = (refl, omega (arith, e))
second_inj true false a b p q e = absurd (omega (arith, e))
second_inj false true a b p q e = absurd (omega (arith, e))

pub short_length_lt : (n : ℕ) → short_length n < 128
short_length_lt n = ground arith

-- The three forms of the length.
pub data LengthForm (n : ℕ) : Type 0 where
  in_second : n < 126 → short_length n ≡ n → extended_length n ≡ [] → LengthForm n
  in_two :
      126 ≤ n → n < 2 ^ 16 → short_length n ≡ 126 → extended_length n ≡ be_bytes 2 n → LengthForm n
  in_eight : 2 ^ 16 ≤ n → short_length n ≡ 127 → extended_length n ≡ be_bytes 8 n → LengthForm n

pub length_form : (n : ℕ) → LengthForm n
length_form n = elim (Bool-cases (ltb n 126)) [
  | inl a ↦ in_second (ltb→lt n 126 a) (rw a refl) (rw a refl)
  | inr a ↦ elim (Bool-cases (ltb n (2 ^ 16))) [
    | inl b ↦ in_two (ltb→ge n 126 a) (ltb→lt n (2 ^ 16) b) (rw (a, b) refl) (rw (a, b) refl)
    | inr b ↦ in_eight (ltb→ge n (2 ^ 16) b) (rw (a, b) refl) (rw (a, b) refl)
  ]
]

-- 126 and 127 stand for an extended length.
pub some_extended : (n : ℕ) → 126 ≤ short_length n → 0 < length (extended_length n)
some_extended n h = by_form (length_form n)
  where
    by_form : LengthForm n → 0 < length (extended_length n)
    by_form (in_second a b c) = absurd (omega (arith, b))
    by_form (in_two a a' b c) = omega (arith, ap length c, length-be_bytes 2 n)
    by_form (in_eight a b c) = omega (arith, ap length c, length-be_bytes 8 n)

-- Equal short lengths, with equal extended lengths in front of the rest.
length_inj :
    (n n' : ℕ) {r r' : List ℕ}
    → n < 2 ^ 63
    → n' < 2 ^ 63
    → short_length n ≡ short_length n'
    → extended_length n ++ r ≡ extended_length n' ++ r'
    → (n ≡ n') × (r ≡ r')
length_inj n n' {r} {r'} p q s e = by_form (length_form n) (length_form n')
  where
    by_form : LengthForm n → LengthForm n' → (n ≡ n') × (r ≡ r')
    by_form (in_second a b c) (in_second x y z) =
        (sym b ∙ s ∙ y, ap (λ t. t ++ r) (sym c) ∙ e ∙ ap (λ t. t ++ r') z)
    by_form (in_two a a' b c) (in_two x x' y z) =
        let (digits, rest) =
          append_inj (be_bytes 2 n) (be_bytes 2 n')
            (length-be_bytes 2 n ∙ sym (length-be_bytes 2 n'))
            (ap (λ t. t ++ r) (sym c) ∙ e ∙ ap (λ t. t ++ r') z) in
        (
          sym (be_number-be_bytes_2 n a') ∙ ap (be_number 0) digits ∙ be_number-be_bytes_2 n' x',
          rest,
        )
    by_form (in_eight a b c) (in_eight x y z) =
        let (digits, rest) =
          append_inj (be_bytes 8 n) (be_bytes 8 n')
            (length-be_bytes 8 n ∙ sym (length-be_bytes 8 n'))
            (ap (λ t. t ++ r) (sym c) ∙ e ∙ ap (λ t. t ++ r') z) in
        (
          sym (be_number-be_bytes_8 n (omega arith))
              ∙ ap (be_number 0) digits
              ∙ be_number-be_bytes_8 n' (omega arith),
          rest,
        )
    by_form (in_second a b c) (in_two x x' y z) = absurd (omega (arith, b, s, y))
    by_form (in_second a b c) (in_eight x y z) = absurd (omega (arith, b, s, y))
    by_form (in_two a a' b c) (in_second x y z) = absurd (omega (arith, b, s, y))
    by_form (in_two a a' b c) (in_eight x y z) = absurd (omega (arith, b, s, y))
    by_form (in_eight a b c) (in_second x y z) = absurd (omega (arith, b, s, y))
    by_form (in_eight a b c) (in_two x x' y z) = absurd (omega (arith, b, s, y))

-- The key that a header sends.
abbrev pub sent_key : Bool → List ℕ → List ℕ
sent_key m key = if m then key else []

key_inj :
    (m : Bool) (key key' : List ℕ) {r r' : List ℕ}
    → (m ≡ true → length key ≡ 4)
    → (m ≡ true → length key' ≡ 4)
    → sent_key m key ++ r ≡ sent_key m key' ++ r'
    → (m ≡ true → key ≡ key') × (r ≡ r')
key_inj true key key' k k' e =
    let (same, rest) = append_inj key key' (k refl ∙ sym (k' refl)) e in (λ _. same, rest)
key_inj false key key' k k' e = (λ h. absurd (ground arith), e)

-- The prefix of a header tells its fields.
pub prefix_inj :
    (h h' : Header) {r r' : List ℕ}
    → IsLegal h
    → IsLegal h'
    → prefix h ++ r ≡ prefix h' ++ r'
    → (h ≡ h') × (r ≡ r')
prefix_inj h h' {r} {r'} p q e =
    let (first_same, behind) = cons_inj (first h) (first h') e in
    let (second_same, lengths) = cons_inj (second h) (second h') behind in
    let (mask_same, short_same) =
      second_inj h.mask h'.mask (short_length h.payload_length) (short_length h'.payload_length)
        (short_length_lt h.payload_length) (short_length_lt h'.payload_length) second_same in
    let (size_same, rest) =
      length_inj h.payload_length h'.payload_length p.size q.size short_same lengths in
    (
      same_fields (omega (arith, p.fin, p.rsv, p.opcode, q.fin, q.rsv, q.opcode, first_same))
          (omega (arith, p.fin, p.rsv, p.opcode, q.fin, q.rsv, q.opcode, first_same))
          (omega (arith, p.fin, p.rsv, p.opcode, q.fin, q.rsv, q.opcode, first_same)) mask_same
          size_same,
      rest,
    )
  where
    same_fields :
        h.fin ≡ h'.fin
        → h.rsv ≡ h'.rsv
        → h.opcode ≡ h'.opcode
        → h.mask ≡ h'.mask
        → h.payload_length ≡ h'.payload_length
        → h ≡ h'
    same_fields a b c d e =
        λ i. record { fin = a i; rsv = b i; opcode = c i; mask = d i; payload_length = e i }

-- A header tells its fields, and the key where there is one.
pub header_inj :
    (h h' : Header) (key key' : List ℕ) {r r' : List ℕ}
    → IsLegal h
    → IsLegal h'
    → (h.mask ≡ true → length key ≡ 4)
    → (h'.mask ≡ true → length key' ≡ 4)
    → header h key ++ r ≡ header h' key' ++ r'
    → (h ≡ h') × (h.mask ≡ true → key ≡ key') × (r ≡ r')
unfolding header
header_inj h h' key key' {r} {r'} p q k k' e =
    let (fields_same, keys) = prefix_inj h h' p q (
      sym (append_assoc (prefix h) (sent_key h.mask key) r)
      ∙ e
      ∙ append_assoc (prefix h') (sent_key h'.mask key') r') in
    let masks : h'.mask ≡ h.mask = ap (λ (x : Header). x.mask) (sym fields_same) in
    let (key_same, rest) =
      key_inj h.mask key key' k (λ m. k' (masks ∙ m))
        (keys ∙ ap (λ m. sent_key m key' ++ r') masks) in
    (fields_same, key_same, rest)

masked_key :
    (m : Bool) (key key' : List ℕ) (off : ℕ) (xs : List ℕ)
    → (m ≡ true → key ≡ key')
    → masked m key off xs ≡ masked m key' off xs
unfolding masked
masked_key true key key' off xs h = ap (λ k. mask_bytes k off xs) (h refl)
masked_key false key key' off xs h = refl

pub length-masked :
    (m : Bool) (key : List ℕ) (off : ℕ) (xs : List ℕ) → length (masked m key off xs) ≡ length xs
unfolding masked
length-masked true key off xs = length-mask_bytes key off xs
length-masked false key off xs = refl

-- Masked payload in front of the rest: what the longer one has first is the shorter one.
pub payload_inj :
    (h h' : Header) (key key' xs ys r r' : List ℕ)
    → (h ≡ h') × (h.mask ≡ true → key ≡ key')
    → length xs ≤ length ys
    → masked h.mask key 0 xs ++ r ≡ masked h'.mask key' 0 ys ++ r'
    → (xs ≡ take (length xs) ys) × (r ≡ masked h'.mask key' (length xs) (drop (length xs) ys) ++ r')
payload_inj h h' key key' xs ys r r' (same, keys) short e =
    let n = length xs in
    let size : length (take n ys) ≡ n = omega (arith, length-take n ys) in
    let masks : h'.mask ≡ h.mask = ap (λ (x : Header). x.mask) (sym same) in
    let split : masked h'.mask key' 0 ys
        ≡ masked h'.mask key' 0 (take n ys) ++ masked h'.mask key' n (drop n ys) =
      ap (masked h'.mask key' 0) (sym (take-append-drop n ys))
      ∙ masked-append h'.mask key' (take n ys) (drop n ys)
      ∙ ap (λ k. masked h'.mask key' 0 (take n ys) ++ masked h'.mask key' k (drop n ys)) size in
    let (front, rest) =
      append_inj (masked h.mask key 0 xs) (masked h'.mask key' 0 (take n ys))
        (length-masked h.mask key 0 xs ∙ sym size ∙ sym (length-masked h'.mask key' 0 (take n ys)))
        (e
          ∙ ap (λ t. t ++ r') split
          ∙ append_assoc (masked h'.mask key' 0 (take n ys)) (masked h'.mask key' n (drop n ys))
              r') in
    (
      sym (masked_cancel h.mask key 0 xs)
          ∙ ap (masked h.mask key 0) (
              front
              ∙ ap (λ m. masked m key' 0 (take n ys)) masks
              ∙ sym (masked_key h.mask key key' 0 (take n ys) keys))
          ∙ masked_cancel h.mask key 0 (take n ys),
      rest,
    )

pub frame-split :
    (h : Header) (key xs r : List ℕ)
    → frame h key xs ++ r ≡ header h key ++ (masked h.mask key 0 xs ++ r)
frame-split h key xs r =
    ap (λ t. t ++ r) (frame_lem h key xs) ∙ append_assoc (header h key) (masked h.mask key 0 xs) r

pub prefix-split :
    (h : Header) (key xs r : List ℕ)
    → frame h key xs ++ r ≡ prefix h ++ (sent_key h.mask key ++ (masked h.mask key 0 xs ++ r))
unfolding header
prefix-split h key xs r =
    frame-split h key xs r
    ∙ append_assoc (prefix h) (sent_key h.mask key) (masked h.mask key 0 xs ++ r)

-- A frame tells its fields, its payload and its end.
pub frame_inj :
    (h h' : Header) (key key' xs ys : List ℕ) {r r' : List ℕ}
    → IsLegal h
    → IsLegal h'
    → (h.mask ≡ true → length key ≡ 4)
    → (h'.mask ≡ true → length key' ≡ 4)
    → length xs ≡ h.payload_length
    → length ys ≡ h'.payload_length
    → frame h key xs ++ r ≡ frame h' key' ys ++ r'
    → (h ≡ h') × (xs ≡ ys) × (r ≡ r')
frame_inj h h' key key' xs ys {r} {r'} p q k k' n n' e =
    let (same, keys, payloads) =
      header_inj h h' key key' p q k k'
        (sym (frame-split h key xs r) ∙ e ∙ frame-split h' key' ys r') in
    let size : length xs ≡ length ys = n ∙ ap (λ (x : Header). x.payload_length) same ∙ sym n' in
    let (body, rest) =
      payload_inj h h' key key' xs ys r r' (same, keys) (omega (arith, size)) payloads in
    let nothing : drop (length xs) ys ≡ [] =
      nil_of_length (drop (length xs) ys) (omega (arith, length-drop (length xs) ys, size)) in
    (
      same,
      body ∙ ap (λ k. take k ys) size ∙ take_all ys,
      rest
          ∙ ap (λ t. t ++ r')
              (ap (masked h'.mask key' (length xs)) nothing ∙ masked-nil h'.mask key' (length xs)),
    )
