-- ===== src/Event/Cuts.antt =====
-- The pieces of a frame, as `wslay_frame_recv` returns them, in the loop of `wslay_event_recv`.
use wslay.Prelude.{
  ℕ, ◌+◌, ◌^◌, ◌≤◌, ◌<◌, ◌≡◌, ◌≢◌, refl, sym, ap, ap₂, subst, ◌∙◌, inl, inr, Bool, true, false,
  ◌==◌, ==_iff, Bool-cases, if◌then◌else◌, some, List, [], ◌∷◌, ◌++◌, map, arith, length,
  length-append, All, All-left, All-right, IsByte, bit_and,
}
use mathlib.Core.List.{append_assoc, append-nil}
use wslay.Protocol.{text_frame, connection_close, Iocb}
use wslay.Utf8.{utf8_accept, utf8_reject, run}
use wslay.Utf8.Prefix.{run-append, run-reject}
use wslay.Event.Context.{EventContext, User, config_no_buffering}
use wslay.Event.Send.{Round, again, returns}
use wslay.Event.Recv.{OnMsgRecvArg, RecvCallbacks, begin_frame}
use wslay.Event.RecvLoop.{and_then, receive_frame, receive_piece, finish_frame}
use wslay.Event.Chunks.{concat}
use wslay.Event.Refusal.{differs}
use wslay.Event.View.{IsObserver, text_state}
use wslay.Event.Pieces.{Slot, InFrame}
use wslay.Event.Finish.{receive_piece-InFrame}
use wslay.Event.Start.{Begins, receive_frame-starts, receive_frame-goes_on}

-- A piece of a frame, as `wslay_frame_recv` returns it.
abbrev pub piece : ℕ → ℕ → ℕ → Bool → List ℕ → Iocb
piece fin opcode n mask p = record {
  fin = fin;
  rsv = 0;
  opcode = opcode;
  payload_length = n;
  mask = mask;
  payload = p;
}

-- How the payload of a frame may be cut: every piece but the last leaves some of it.
pub data IsCut : ℕ → List (List ℕ) → Type 0 where
  last_piece : (p : List ℕ) → IsCut (length p) (p ∷ [])
  piece_before :
      {left : ℕ} {ps : List (List ℕ)} (p : List ℕ)
      → 0 < length p
      → 0 < left
      → IsCut left ps
      → IsCut (length p + left) (p ∷ ps)

cut-ne_nil : (l : ℕ) → IsCut l [] → ⊥
cut-ne_nil l cut = elim cut [ ]

-- The pieces of a frame.
abbrev pub frame_iocbs : ℕ → ℕ → Bool → List (List ℕ) → List Iocb
frame_iocbs fin opcode mask ps = map (piece fin opcode (length (concat ps)) mask) ps

pub alive_before :
    (op : ℕ) (xs ys : List ℕ)
    → All IsByte ys
    → text_state op (xs ++ ys) ≢ utf8_reject
    → text_state op xs ≢ utf8_reject
alive_before op xs ys bytes alive e = elim (Bool-cases (op == text_frame)) [
  | inl text ↦ alive (
      ap (λ b. if b then run utf8_accept (xs ++ ys) else utf8_accept) text
      ∙ run-append xs ys utf8_accept
      ∙ ap (λ s. run s ys) (sym (ap (λ b. if b then run utf8_accept xs else utf8_accept) text) ∙ e)
      ∙ run-reject ys bytes)
  | inr other ↦
      absurd
        (omega (arith, sym (ap (λ b. if b then run utf8_accept xs else utf8_accept) other) ∙ e))
]

module _ {W : Type 0} (on : RecvCallbacks W) where
  -- What the loop does with pieces that come one after the other.
  abbrev pub receive_all : List Iocb → EventContext W → Round W
  receive_all [] ctx = again ctx
  receive_all (iocb ∷ iocbs) ctx = and_then (receive_frame on iocb ctx) (receive_all iocbs)

and_then-again : {W : Type 0} (r : Round W) → and_then r again ≡ r
and_then-again (again ctx) = refl
and_then-again (returns r ctx) = refl

pub receive_all-append :
    {W : Type 0} (on : RecvCallbacks W) (xs ys : List Iocb) (ctx : EventContext W)
    → receive_all on (xs ++ ys) ctx ≡ and_then (receive_all on xs ctx) (receive_all on ys)
receive_all-append {W} on [] ys ctx = refl
receive_all-append {W} on (x ∷ xs) ys ctx =
    by_round (receive_all-append on xs ys) (receive_frame on x ctx)
  where
    by_round :
        ((c : EventContext W)
          → receive_all on (xs ++ ys) c ≡ and_then (receive_all on xs c) (receive_all on ys))
        → (r : Round W)
        → and_then r (receive_all on (xs ++ ys))
          ≡ and_then (and_then r (receive_all on xs)) (receive_all on ys)
    by_round h (again c) = h c
    by_round h (returns r c) = refl

module _ {W : Type 0} (on : RecvCallbacks W) (log : User W → List OnMsgRecvArg)
    (obs : IsObserver on log) (k : Slot) (op : ℕ) (m : List ℕ) (n : ℕ)
    (keep : bit_and k.config config_no_buffering ≡ 0) (small : n < 2 ^ 64)
    (not_close : (op == connection_close) ≡ false) (used : (op == 0xff) ≡ false)
    (last opcode : ℕ) where
  -- One of them, and the test for the end of the frame.
  one_piece :
      (p d : List ℕ) (s : EventContext W)
      → length d + length p ≤ n
      → All IsByte p
      → text_state op (m ++ (d ++ p)) ≢ utf8_reject
      → InFrame k op last m n d (m ++ d) s
      → (t : EventContext W) × (receive_piece on (piece last opcode n k.server p) s ≡ (
          if length d + length p == n
          then finish_frame on (piece last opcode n k.server p) t
          else again t))
        × InFrame k op last m n (d ++ p) (m ++ (d ++ p)) t
        × (log t.user ≡ log s.user)
  one_piece p d s fits bytes alive v =
      let i = piece last opcode n k.server p in
      let (t, e, w, same) =
        receive_piece-InFrame on log obs k op m n last i d s keep small not_close fits bytes
          (λ q. alive (ap (text_state op) (sym (append_assoc m d p)) ∙ q)) v in
      (
        t,
        e
            ∙ ap₂ (λ (a b : ℕ). if a == b then finish_frame on i t else again t)
                (w.place.off ∙ length-append d p) w.place.len,
        subst (λ x. InFrame k op last m n (d ++ p) x t) (append_assoc m d p) w,
        same,
      )

  -- The pieces of a frame, from one that is started on, lead to its end.
  pieces-InFrame :
      (left : ℕ) (p : List ℕ) (ps : List (List ℕ)) (d : List ℕ) (s : EventContext W)
      → IsCut left (p ∷ ps)
      → length d + left ≡ n
      → All IsByte (concat (p ∷ ps))
      → text_state op (m ++ (d ++ concat (p ∷ ps))) ≢ utf8_reject
      → InFrame k op last m n d (m ++ d) s
      → (iocb : Iocb) × (t : EventContext W) × (and_then
            (receive_piece on (piece last opcode n k.server p) s)
            (receive_all on (map (piece last opcode n k.server) ps))
          ≡ finish_frame on iocb t)
        × InFrame k op last m n (d ++ concat (p ∷ ps)) (m ++ (d ++ concat (p ∷ ps))) t
        × (log t.user ≡ log s.user)
  pieces-InFrame left p ps d s (last_piece _) sum bytes alive v =
      let only : concat (p ∷ []) ≡ p = append-nil p in
      let (t, e, w, same) =
        one_piece p d s (omega (arith, sum)) (subst (All IsByte) only bytes)
          (λ q. alive (ap (λ x. text_state op (m ++ (d ++ x))) only ∙ q)) v in
      let i = piece last opcode n k.server p in
      (
        i,
        t,
        and_then-again (receive_piece on i s)
            ∙ e
            ∙ ap (λ b. if b then finish_frame on i t else again t) ((==_iff _ _).1 sum),
        subst (λ x. InFrame k op last m n (d ++ x) (m ++ (d ++ x)) t) (sym only) w,
        same,
      )
  pieces-InFrame left p [] d s (piece_before _ some_bytes more rest) sum bytes alive v =
      elim rest [ ]
  pieces-InFrame left p (q ∷ ps) d s (piece_before {left = behind} _ some_bytes more rest) sum bytes
        alive v =
      let i = piece last opcode n k.server p in
      let j = piece last opcode n k.server q in
      let later = concat (q ∷ ps) in
      let assoc : (d ++ p) ++ later ≡ d ++ (p ++ later) = append_assoc d p later in
      let whole : m ++ (d ++ (p ++ later)) ≡ (m ++ (d ++ p)) ++ later =
        ap (λ x. m ++ x) (sym assoc) ∙ sym (append_assoc m (d ++ p) later) in
      let (t, e, w, same) =
        one_piece p d s (omega (arith, sum)) (All-left IsByte p later bytes)
          (alive_before op (m ++ (d ++ p)) later (All-right IsByte p later bytes)
            (λ x. alive (ap (text_state op) whole ∙ x)))
          v in
      let short : (length d + length p == n) ≡ false =
        differs _ _ (λ x. absurd (omega (arith, x, sum, more))) in
      let goes : receive_frame on j t ≡ receive_piece on j t =
        receive_frame-goes_on on log obs k op last m n (d ++ p) (m ++ (d ++ p)) j t used
          (omega (arith, sum, some_bytes)) refl (sym w.place.server) w in
      let (iocb, u, f, x, same') =
        pieces-InFrame behind q ps (d ++ p) t rest (omega (arith, sum, length-append d p))
          (All-right IsByte p later bytes)
          (λ y. alive (ap (λ z. text_state op (m ++ z)) (sym assoc) ∙ y)) w in
      (
        iocb,
        u,
        ap (λ r. and_then r (receive_all on (map (piece last opcode n k.server) (q ∷ ps))))
              (e ∙ ap (λ b. if b then finish_frame on i t else again t) short)
            ∙ ap (λ r. and_then r (receive_all on (map (piece last opcode n k.server) ps))) goes
            ∙ f,
        subst (λ z. InFrame k op last m n z (m ++ z) u) assoc x,
        same' ∙ same,
      )

  -- A frame that finds its place comes to its end.
  pub frame-InFrame :
      (ps : List (List ℕ)) (ctx : EventContext W)
      → IsCut n ps
      → length (concat ps) ≡ n
      → All IsByte (concat ps)
      → text_state op (m ++ concat ps) ≢ utf8_reject
      → k.max < 2 ^ 64
      → length m + n ≤ k.max
      → k.server ≡ ctx.server
      → ((p : List ℕ)
          → (c : EventContext W) × (begin_frame (piece last opcode n k.server p) ctx
              ≡ some (true, c))
            × Begins on log obs k op m last c
            × (c.user ≡ ctx.user))
      → (iocb : Iocb) × (t : EventContext W) × (receive_all on
            (map (piece last opcode n k.server) ps)
            ctx
          ≡ finish_frame on iocb t)
        × InFrame k op last m n (concat ps) (m ++ concat ps) t
        × (log t.user ≡ log ctx.user)
  frame-InFrame [] ctx cut size bytes alive max fits role begins = absurd (cut-ne_nil n cut)
  frame-InFrame (p ∷ ps) ctx cut size bytes alive max fits role begins =
      let (c, e, begun, user) = begins p in
      let (s, starts, v, same) =
        receive_frame-starts on log obs k op m last n (piece last opcode n k.server p) ctx c keep
          max refl fits refl role e begun in
      let (iocb, t, f, w, same') =
        pieces-InFrame n p ps [] s cut (omega arith) bytes alive
          (subst (λ x. InFrame k op last m n [] x s) (sym (append-nil m)) v) in
      (
        iocb,
        t,
        ap (λ r. and_then r (receive_all on (map (piece last opcode n k.server) ps))) starts ∙ f,
        w,
        same' ∙ same ∙ ap log user,
      )
