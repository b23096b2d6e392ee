-- ===== src/Utf8/Prefix.antt =====
-- Rejection is early and final: the automaton is in UTF8_REJECT as soon as no well-formed text
-- begins with the bytes read, and stays there.
use wslay.Prelude.{ℕ, ◌≡◌, ◌≢◌, refl, ◌∙◌, ap, ◌↔◌, List, [], ◌∷◌, ◌++◌, arith}
use wslay.Prelude.{All, IsByte, All-append}
use wslay.Utf8.{run, utf8_accept, utf8_reject}
use wslay.Utf8.Grammar.{IsUtf8}
use wslay.Utf8.Automaton.{
  Expect, start, tail1, tail2, tail3, after_e0, after_ed, after_f0, after_f4, reject, number, next,
  run-states,
}
use wslay.Utf8.Accepts.{run-next, run-accept_iff}

pub run-append : (bs cs : List ℕ) (s : ℕ) → run s (bs ++ cs) ≡ run (run s bs) cs
unfolding run
run-append [] cs s = refl
run-append (b ∷ bs) cs s = run-append bs cs _

pub run-reject : (bs : List ℕ) → All IsByte bs → run utf8_reject bs ≡ utf8_reject
unfolding number next
run-reject [] h = unfold run in refl
run-reject (b ∷ bs) h = run-next reject b bs h.0 ∙ run-reject bs h.1

-- Bytes that complete a character in each state.
completion : Expect → List ℕ
completion start = []
completion tail1 = 0x80 ∷ []
completion tail2 = 0x80 ∷ 0x80 ∷ []
completion tail3 = 0x80 ∷ 0x80 ∷ 0x80 ∷ []
completion after_e0 = 0xa0 ∷ 0x80 ∷ []
completion after_ed = 0x80 ∷ 0x80 ∷ []
completion after_f0 = 0x90 ∷ 0x80 ∷ 0x80 ∷ []
completion after_f4 = 0x80 ∷ 0x80 ∷ 0x80 ∷ []
completion reject = []

completion-All : (s : Expect) → All IsByte (completion s)
unfolding completion
completion-All start = tt
completion-All _ = omega arith

run-completion : (s : Expect) → s ≢ reject → run (number s) (completion s) ≡ utf8_accept
unfolding run number completion
run-completion start h = refl
run-completion reject h = absurd (h refl)
run-completion _ h = refl

number-ne : (s : Expect) → number s ≢ utf8_reject → s ≢ reject
number-ne s h e = h (unfold number in ap number e)

-- A run that has not rejected can be completed to well-formed UTF-8.
run-completes :
    (bs : List ℕ)
    → All IsByte bs
    → run utf8_accept bs ≢ utf8_reject
    → (cs : List ℕ) × All IsByte cs × IsUtf8 (bs ++ cs)
unfolding number
run-completes bs h ne =
    let (t, e) = run-states bs start h in
    let cs = completion t in
    let bytes = completion-All t in
    let alive : t ≢ reject = number-ne t (λ q. ne (e ∙ q)) in
    let total : run utf8_accept (bs ++ cs) ≡ utf8_accept =
      run-append bs cs utf8_accept ∙ ap (λ s. run s cs) e ∙ run-completion t alive in
    (cs, bytes, (run-accept_iff (bs ++ cs) (All-append IsByte bs cs h bytes)).0 total)

-- `decode` is outside UTF8_REJECT after some bytes exactly when they begin a well-formed text.
pub run-alive_iff :
    (bs : List ℕ)
    → All IsByte bs
    → (run utf8_accept bs ≢ utf8_reject) ↔ ((cs : List ℕ) × All IsByte cs × IsUtf8 (bs ++ cs))
run-alive_iff bs h = (run-completes bs h, back)
  where
    back : ((cs : List ℕ) × All IsByte cs × IsUtf8 (bs ++ cs)) → run utf8_accept bs ≢ utf8_reject
    back (cs, k, u) e =
        let total = (run-accept_iff (bs ++ cs) (All-append IsByte bs cs h k)).1 u in
        let dead : run utf8_accept (bs ++ cs) ≡ utf8_reject =
          run-append bs cs utf8_accept ∙ ap (λ s. run s cs) e ∙ run-reject cs k in
        absurd (omega (arith, dead, total))
