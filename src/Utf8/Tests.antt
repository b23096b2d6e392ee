-- ===== src/Utf8/Tests.antt =====
-- The automaton on the text "é€" and on what it is cut to.
use wslay.Prelude.{
  some, ℕ, ◌≡◌, refl, ◌↔◌, ◌≢◌, List, [], ◌∷◌, ◌++◌, arith, All, IsByte, are_bytes-All,
}
use wslay.Utf8.{decode, run, utf8d, utf8_accept, utf8_reject}
use wslay.Utf8.Grammar.{IsUtf8}
use wslay.Utf8.Automaton.{Expect, number, checked_decode, decode-in_table}
use wslay.Utf8.Accepts.{run-accept_iff}
use wslay.Utf8.Prefix.{run-alive_iff}

abbrev text : List ℕ
text = 0xc3 ∷ 0xa9 ∷ 0xe2 ∷ 0x82 ∷ 0xac ∷ []

accepted : run utf8_accept text ≡ utf8_accept
unfolding run utf8d
accepted = refl

surrogate : run utf8_accept (0xed ∷ 0xa0 ∷ 0x80 ∷ []) ≡ utf8_reject
unfolding run utf8d
surrogate = refl

run-accept_iff_example : (run utf8_accept text ≡ utf8_accept) ↔ IsUtf8 text
run-accept_iff_example = run-accept_iff text (are_bytes-All text refl)

run-alive_iff_example :
    (run utf8_accept (0xc3 ∷ 0xa9 ∷ 0xe2 ∷ []) ≢ utf8_reject)
    ↔ ((cs : List ℕ) × All IsByte cs × IsUtf8 ((0xc3 ∷ 0xa9 ∷ 0xe2 ∷ []) ++ cs))
run-alive_iff_example =
    run-alive_iff (0xc3 ∷ 0xa9 ∷ 0xe2 ∷ []) (are_bytes-All (0xc3 ∷ 0xa9 ∷ 0xe2 ∷ []) refl)

decode-in_table_example :
    checked_decode utf8d (record { state = number Expect.start; codep = 0 }) 0xf4
    ≡ some (decode (record { state = number Expect.start; codep = 0 }) 0xf4)
decode-in_table_example = decode-in_table Expect.start 0 0xf4 (omega arith)
