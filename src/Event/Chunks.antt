-- ===== src/Event/Chunks.antt =====
-- The chunks in which `wslay_event_recv` keeps a message.
use wslay.Prelude.{
  ℕ, ◌+◌, ◌≡◌, refl, ap, ◌∙◌, ◌≢◌, true, false, ltb, not_ltb, ◌==◌, ==_iff, Bool-cases, inl, inr,
  if◌then◌else◌, Option, none, some, List, [], ◌∷◌, ◌++◌, length, length-append, arith,
}
use mathlib.Core.List.{append_assoc, append-nil}
use wslay.Event.Recv.{flatten_loop, flatten_queue}

-- The payload that chunks hold.
abbrev pub concat : List (List ℕ) → List ℕ
concat [] = []
concat (c ∷ cs) = c ++ concat cs

flatten_loop-concat :
    (cs : List (List ℕ)) (len : ℕ) (buf : List ℕ)
    → length buf + length (concat cs) ≡ len
    → flatten_loop len buf cs ≡ (some (buf ++ concat cs), [])
unfolding flatten_loop
flatten_loop-concat [] len buf e =
    let same : (len == length buf) ≡ true = (==_iff len (length buf)).1 (omega (arith, e)) in
    rw (same, append-nil buf) refl
flatten_loop-concat (c ∷ cs) len buf e =
    let size : length (buf ++ c) + length (concat cs) ≡ len =
      omega (arith, e, length-append buf c, length-append c (concat cs)) in
    let room : ltb len (length (buf ++ c)) ≡ false =
      not_ltb len (length (buf ++ c)) (omega (arith, size)) in
    rw room (
      flatten_loop-concat cs len (buf ++ c) size
      ∙ ap (λ (t : List ℕ). (some t, [])) (append_assoc buf c (concat cs)))

-- `wslay_event_flatten_queue` puts the chunks of a message together, when it is told their length,
-- and empties the queue; it returns NULL exactly when there is nothing to put together.
pub flatten_queue-concat :
    (cs : List (List ℕ))
    → ((flatten_queue cs (length (concat cs))).0
        ≡ (if length (concat cs) == 0 then none else some (concat cs)))
      × (length (concat cs) ≢ 0 → (flatten_queue cs (length (concat cs))).1 ≡ [])
unfolding flatten_queue
flatten_queue-concat cs =
    let whole = flatten_loop-concat cs (length (concat cs)) [] (omega arith) in
    elim (Bool-cases (length (concat cs) == 0)) [
      | inl empty ↦ rw empty (refl, λ ne. absurd (ne ((==_iff (length (concat cs)) 0).0 empty)))
      | inr full ↦ rw full (
        ap (λ (p : Option (List ℕ) × List (List ℕ)). p.0) whole,
        λ ne. ap (λ (p : Option (List ℕ) × List (List ℕ)). p.1) whole,
      )
    ]
