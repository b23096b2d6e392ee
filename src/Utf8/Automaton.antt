-- ===== src/Utf8/Automaton.antt =====
-- The table of utf8.c as an automaton over named states, with byte ranges in place of classes.
use wslay.Prelude.{
  ℕ, zero, suc, ◌*◌, ◌/◌, ◌%◌, ◌^◌, bit_and, bit_or, Option, none, some, ◌+◌, ◌≤◌, ◌<◌, ◌≡◌, refl,
  ap, ◌∙◌, Bool, true, List, [], ◌∷◌, ◌==◌, ltb, leb, ◌&&◌, arith,
}
use wslay.Prelude.{
  if◌then◌else◌, get_or, all_below, all_below_eq, all_below_sound, ltb→lt, length, All, IsByte,
}
use wslay.Utf8.{utf8d, Decoder, utf8_accept, decode, run}

-- What the decoder waits for.
pub data Expect : Type 0 where
  start tail1 tail2 tail3 after_e0 after_ed after_f0 after_f4 reject : Expect

-- The number of a state in the table.
unfoldable pub number : Expect → ℕ
number start = 0
number reject = 12
number tail1 = 24
number tail2 = 36
number after_e0 = 48
number after_ed = 60
number after_f0 = 72
number tail3 = 84
number after_f4 = 96

abbrev pub between : ℕ → ℕ → ℕ → Bool
between lo hi b = leb lo b && leb b hi

-- The state after a byte at the start of a character.
unfoldable pub lead : ℕ → Expect
lead b =
    if ltb b 0x80
    then start
    else if ltb b 0xc2
    then reject
    else if ltb b 0xe0
    then tail1
    else if b == 0xe0
    then after_e0
    else if b == 0xed
    then after_ed
    else if ltb b 0xf0
    then tail2
    else if b == 0xf0
    then after_f0
    else if ltb b 0xf4
    then tail3
    else if b == 0xf4
    then after_f4
    else reject

-- The state after one more byte of a character.
unfoldable pub next : Expect → ℕ → Expect
unfolding lead
next start b = lead b
next tail1 b = if between 0x80 0xbf b then start else reject
next tail2 b = if between 0x80 0xbf b then tail1 else reject
next tail3 b = if between 0x80 0xbf b then tail2 else reject
next after_e0 b = if between 0xa0 0xbf b then tail1 else reject
next after_ed b = if between 0x80 0x9f b then tail1 else reject
next after_f0 b = if between 0x90 0xbf b then tail2 else reject
next after_f4 b = if between 0x80 0x8f b then tail2 else reject
next reject b = reject

abbrev step : ℕ → ℕ → ℕ
step state b = get_or utf8d (256 + state + get_or utf8d b 0) 0

start_table : all_below 256 (λ b. step (number start) b == number (next start b)) ≡ true
unfolding all_below utf8d next number
start_table = refl

tail1_table : all_below 256 (λ b. step (number tail1) b == number (next tail1 b)) ≡ true
unfolding all_below utf8d next number
tail1_table = refl

tail2_table : all_below 256 (λ b. step (number tail2) b == number (next tail2 b)) ≡ true
unfolding all_below utf8d next number
tail2_table = refl

tail3_table : all_below 256 (λ b. step (number tail3) b == number (next tail3 b)) ≡ true
unfolding all_below utf8d next number
tail3_table = refl

after_e0_table : all_below 256 (λ b. step (number after_e0) b == number (next after_e0 b)) ≡ true
unfolding all_below utf8d next number
after_e0_table = refl

after_ed_table : all_below 256 (λ b. step (number after_ed) b == number (next after_ed b)) ≡ true
unfolding all_below utf8d next number
after_ed_table = refl

after_f0_table : all_below 256 (λ b. step (number after_f0) b == number (next after_f0 b)) ≡ true
unfolding all_below utf8d next number
after_f0_table = refl

after_f4_table : all_below 256 (λ b. step (number after_f4) b == number (next after_f4 b)) ≡ true
unfolding all_below utf8d next number
after_f4_table = refl

reject_table : all_below 256 (λ b. step (number reject) b == number (next reject b)) ≡ true
unfolding all_below utf8d next number
reject_table = refl

step-number : (s : Expect) (b : ℕ) → b < 256 → step (number s) b ≡ number (next s b)
step-number start = all_below_eq 256 (step (number start)) (λ b. number (next start b)) start_table
step-number tail1 = all_below_eq 256 (step (number tail1)) (λ b. number (next tail1 b)) tail1_table
step-number tail2 = all_below_eq 256 (step (number tail2)) (λ b. number (next tail2 b)) tail2_table
step-number tail3 = all_below_eq 256 (step (number tail3)) (λ b. number (next tail3 b)) tail3_table
step-number after_e0 =
    all_below_eq 256 (step (number after_e0)) (λ b. number (next after_e0 b)) after_e0_table
step-number after_ed =
    all_below_eq 256 (step (number after_ed)) (λ b. number (next after_ed b)) after_ed_table
step-number after_f0 =
    all_below_eq 256 (step (number after_f0)) (λ b. number (next after_f0 b)) after_f0_table
step-number after_f4 =
    all_below_eq 256 (step (number after_f4)) (λ b. number (next after_f4 b)) after_f4_table
step-number reject =
    all_below_eq 256 (step (number reject)) (λ b. number (next reject b)) reject_table

-- One byte moves the table's state as it moves the named state.
pub decode-next :
    (s : Expect) (codep b : ℕ)
    → b < 256
    → (decode (record { state = number s; codep = codep }) b).state ≡ number (next s b)
unfolding decode
decode-next s codep b lt = step-number s b lt

number-le : (s : Expect) → number s ≤ 96
unfolding number
number-le start = omega arith
number-le _ = omega arith

classes : all_below 256 (λ b. ltb (get_or utf8d b 0) 12) ≡ true
unfolding all_below utf8d
classes = refl

class-below : (b : ℕ) → b < 256 → get_or utf8d b 0 < 12
class-below b lt =
    ltb→lt _ 12
      (all_below_sound 256 (λ b. ltb (get_or utf8d b 0) 12) b (unfold utf8d in classes) lt)

-- A read of an array, which is nothing out of its bounds.
abbrev pub read : List ℕ → ℕ → Option ℕ
read [] i = none
read (x ∷ xs) zero = some x
read (x ∷ xs) (suc i) = read xs i

read-get_or : (xs : List ℕ) (i : ℕ) → i < length xs → read xs i ≡ some (get_or xs i 0)
read-get_or [] i h = absurd (omega arith)
read-get_or (x ∷ xs) zero h = refl
read-get_or (x ∷ xs) (suc i) h = read-get_or xs i (omega arith)

-- What `decode` makes of the class of its byte and the next state.
abbrev decoded : Decoder → ℕ → ℕ → ℕ → Decoder
decoded d byte type state = record {
  state = state;
  codep =
      if d.state == utf8_accept
      then bit_and (0xff / 2 ^ type) byte
      else bit_or (bit_and byte 0x3f) (d.codep * 2 ^ 6 % 2 ^ 32);
}

abbrev with_state : Decoder → ℕ → ℕ → Option ℕ → Option Decoder
with_state d byte type none = none
with_state d byte type (some state) = some (decoded d byte type state)

abbrev with_class : List ℕ → Decoder → ℕ → Option ℕ → Option Decoder
with_class table d byte none = none
with_class table d byte (some type) = with_state d byte type (read table (256 + d.state + type))

-- `decode` with its two reads of `table` checked: nothing if one of them is out of bounds.
abbrev pub checked_decode : List ℕ → Decoder → ℕ → Option Decoder
checked_decode table d byte = with_class table d byte (read table byte)

checked_decode-inside :
    (table : List ℕ) (d : Decoder) (b : ℕ)
    → b < length table
    → 256 + d.state + get_or table b 0 < length table
    → checked_decode table d b
      ≡ some (decoded d b (get_or table b 0) (get_or table (256 + d.state + get_or table b 0) 0))
checked_decode-inside table d b h k =
    ap (with_class table d b) (read-get_or table b h)
    ∙ ap (with_state d b (get_or table b 0))
        (read-get_or table (256 + d.state + get_or table b 0) k)

table_size : length utf8d ≡ 364
unfolding utf8d
table_size = refl

-- For a byte, and a state that a run can be in, `decode` returns what it returns with both of its
-- reads of `wslay_utf8d` checked: they are inside the table.
pub decode-in_table :
    (s : Expect) (codep b : ℕ)
    → b < 256
    → checked_decode utf8d (record { state = number s; codep = codep }) b
      ≡ some (decode (record { state = number s; codep = codep }) b)
unfolding decode
decode-in_table s codep b lt =
    checked_decode-inside utf8d (record { state = number s; codep = codep }) b
      (omega (arith, lt, table_size)) (omega (arith, number-le s, class-below b lt, table_size))

-- A run from a state that the table numbers ends in one.
pub run-states :
    (bs : List ℕ) (s : Expect) → All IsByte bs → (t : Expect) × (run (number s) bs ≡ number t)
unfolding run
run-states [] s h = (s, refl)
run-states (b ∷ bs) s h = rw (decode-next s 0 b h.0) (run-states bs (next s b) h.1)
