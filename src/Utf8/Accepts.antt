-- ===== src/Utf8/Accepts.antt =====
-- The automaton of utf8.c accepts exactly the well-formed UTF-8 of RFC 3629.
use wslay.Prelude.{
  ℕ, ◌≤◌, ◌≡◌, refl, ◌⊎◌, ◌↔◌, List, [], ◌∷◌, arith, inl, inr, sym, ◌∙◌, ◌<◌, All, IsByte,
}
use wslay.Utf8.{run, utf8_accept}
use wslay.Utf8.Grammar.{In, IsTail, IsUtf8, end, one, two, three, four}
use wslay.Utf8.Automaton.{
  Expect, start, tail1, tail2, tail3, after_e0, after_ed, after_f0, after_f4, reject, number, lead,
  next, decode-next,
}

-- What may follow in each state, by the grammar.
abbrev Tails2 : (ℕ → Type 0) → List ℕ → Type 0
Tails2 P [] = ⊥
Tails2 P (c ∷ []) = ⊥
Tails2 P (c ∷ d ∷ r) = P c × IsTail d × IsUtf8 r

abbrev Tails3 : (ℕ → Type 0) → List ℕ → Type 0
Tails3 P [] = ⊥
Tails3 P (c ∷ []) = ⊥
Tails3 P (c ∷ d ∷ []) = ⊥
Tails3 P (c ∷ d ∷ e ∷ r) = P c × IsTail d × IsTail e × IsUtf8 r

abbrev Tails1 : List ℕ → Type 0
Tails1 [] = ⊥
Tails1 (c ∷ r) = IsTail c × IsUtf8 r

abbrev Follows : Expect → List ℕ → Type 0
Follows start bs = IsUtf8 bs
Follows tail1 bs = Tails1 bs
Follows tail2 bs = Tails2 IsTail bs
Follows tail3 bs = Tails3 IsTail bs
Follows after_e0 bs = Tails2 (In 0xa0 0xbf) bs
Follows after_ed bs = Tails2 (In 0x80 0x9f) bs
Follows after_f0 bs = Tails3 (In 0x90 0xbf) bs
Follows after_f4 bs = Tails3 (In 0x80 0x8f) bs
Follows reject bs = ⊥

-- The first bytes that lead to each state.
abbrev Leads : Expect → ℕ → Type 0
Leads start b = b ≤ 0x7f
Leads tail1 b = In 0xc2 0xdf b
Leads tail2 b = In 0xe1 0xec b ⊎ In 0xee 0xef b
Leads tail3 b = In 0xf1 0xf3 b
Leads after_e0 b = b ≡ 0xe0
Leads after_ed b = b ≡ 0xed
Leads after_f0 b = b ≡ 0xf0
Leads after_f4 b = b ≡ 0xf4
Leads reject b = Unit {0}

lead-Leads : (b : ℕ) → Leads (lead b) b
unfolding lead
lead-Leads b = ground arith

lead-Follows : (s : Expect) (b : ℕ) (bs : List ℕ) → Leads s b → Follows s bs → IsUtf8 (b ∷ bs)
lead-Follows start b bs l f = one l f
lead-Follows tail1 b [] l f = absurd f
lead-Follows tail1 b (c ∷ r) l f = two l f.0 f.1
lead-Follows tail2 b (c ∷ d ∷ r) l f = three (ground arith) f.1 f.2
lead-Follows tail3 b (c ∷ d ∷ e ∷ r) l f = four (inr (inl (l, f.0))) f.1 f.2 f.3
lead-Follows after_e0 b (c ∷ d ∷ r) l f = three (inl (l, f.0)) f.1 f.2
lead-Follows after_ed b (c ∷ d ∷ r) l f = three (inr (inr (inl (l, f.0)))) f.1 f.2
lead-Follows after_f0 b (c ∷ d ∷ e ∷ r) l f = four (inl (l, f.0)) f.1 f.2 f.3
lead-Follows after_f4 b (c ∷ d ∷ e ∷ r) l f = four (inr (inr (l, f.0))) f.1 f.2 f.3
lead-Follows _ b _ l f = absurd f

next-Follows : (s : Expect) (b : ℕ) (bs : List ℕ) → Follows (next s b) bs → Follows s (b ∷ bs)
unfolding next
next-Follows start b bs f = lead-Follows (lead b) b bs (lead-Leads b) f
next-Follows tail1 b bs f = ground arith
next-Follows tail2 b [] f = ground arith
next-Follows tail2 b (c ∷ r) f = ground arith
next-Follows tail3 b [] f = ground arith
next-Follows tail3 b (c ∷ []) f = ground arith
next-Follows tail3 b (c ∷ d ∷ r) f = ground arith
next-Follows after_e0 b [] f = ground arith
next-Follows after_e0 b (c ∷ r) f = ground arith
next-Follows after_ed b [] f = ground arith
next-Follows after_ed b (c ∷ r) f = ground arith
next-Follows after_f0 b [] f = ground arith
next-Follows after_f0 b (c ∷ []) f = ground arith
next-Follows after_f0 b (c ∷ d ∷ r) f = ground arith
next-Follows after_f4 b [] f = ground arith
next-Follows after_f4 b (c ∷ []) f = ground arith
next-Follows after_f4 b (c ∷ d ∷ r) f = ground arith
next-Follows reject b bs f = absurd f

pub run-next :
    (s : Expect) (b : ℕ) (bs : List ℕ)
    → b < 256
    → run (number s) (b ∷ bs) ≡ run (number (next s b)) bs
unfolding run
run-next s b bs h = rw (decode-next s 0 b h)

-- What leads a run to acceptance follows the grammar.
run-Follows :
    (bs : List ℕ) (s : Expect) → All IsByte bs → run (number s) bs ≡ utf8_accept → Follows s bs
unfolding run number
run-Follows [] start h e = end
run-Follows [] _ h e = absurd (omega arith)
run-Follows (b ∷ bs) s h e =
    next-Follows s b bs (run-Follows bs (next s b) h.1 (sym (run-next s b bs h.0) ∙ e))

step_to :
    (s t : Expect) (b : ℕ) (bs : List ℕ)
    → b < 256
    → next s b ≡ t
    → run (number t) bs ≡ utf8_accept
    → run (number s) (b ∷ bs) ≡ utf8_accept
step_to s t b bs h e r = run-next s b bs h ∙ (rw e r)

IsUtf8-run : {bs : List ℕ} → IsUtf8 bs → run (number start) bs ≡ utf8_accept
unfolding run number next lead
IsUtf8-run end = refl
IsUtf8-run (one {b} {r} p u) = step_to start start b r (omega arith) (ground arith) (IsUtf8-run u)
IsUtf8-run (two {b} {c} {r} p q u) =
    step_to start tail1 b (c ∷ r) (omega arith) (ground arith)
      (step_to tail1 start c r (omega arith) (ground arith) (IsUtf8-run u))
IsUtf8-run (three {b} {c} {d} {r} l q u) = step_to start (lead b) b (c ∷ d ∷ r) (omega arith) refl (
    step_to (lead b) tail1 c (d ∷ r) (omega arith) (ground arith)
      (step_to tail1 start d r (omega arith) (ground arith) (IsUtf8-run u)))
IsUtf8-run (four {b} {c} {d} {e} {r} l p q u) =
    step_to start (lead b) b (c ∷ d ∷ e ∷ r) (omega arith) refl (
      step_to (lead b) tail2 c (d ∷ e ∷ r) (omega arith) (ground arith) (
        step_to tail2 tail1 d (e ∷ r) (omega arith) (ground arith)
          (step_to tail1 start e r (omega arith) (ground arith) (IsUtf8-run u))))

-- `decode` started in UTF8_ACCEPT ends in UTF8_ACCEPT on exactly the byte strings that are
-- well-formed UTF-8.
pub run-accept_iff : (bs : List ℕ) → All IsByte bs → (run utf8_accept bs ≡ utf8_accept) ↔ IsUtf8 bs
unfolding number
run-accept_iff bs h = (run-Follows bs start h, IsUtf8-run)
