-- ===== src/Event/Kept.antt =====
-- What every round of the loops of `wslay_event_send` and `wslay_event_recv` keeps, the calls keep.
use wslay.Prelude.{
  ℕ, zero, suc, pos, true, false, Bool, Bool-cases, inl, inr, if◌then◌else◌, Option, none, some, ℤ,
}
use wslay.Event.Context.{EventCallbacks, EventContext}
use wslay.Event.Send.{Round, again, returns, choose, want_to_write}
use wslay.Event.SendLoop.{send_chosen, after_round, round, event_send}
use wslay.Event.Recv.{RecvCallbacks}
use wslay.Event.RecvLoop.{recv_round, event_recv}
use wslay.Event.Closing.{RoundAll, SentAll}

-- Both results of a test.
pub either :
    {W : Type 0} (P : EventContext W → Type 0) (b : Bool) (p q : ℤ × EventContext W)
    → P p.1
    → P q.1
    → P (if b then p else q).1
either P true p q h k = h
either P false p q h k = k

module _ {W : Type 0} (P : EventContext W → Type 0) (cb : EventCallbacks W) where
  after_round-All :
      (next : EventContext W → Option (ℤ × EventContext W))
      → ((c : EventContext W) → P c → SentAll P (next c))
      → (r : Round W) → RoundAll P r
      → SentAll P (after_round next r)
  unfolding after_round
  after_round-All next ih (again ctx) h = ih ctx h
  after_round-All next ih (returns r ctx) h = h

  -- A round keeps what its two halves keep.
  pub round-All :
      ((c : EventContext W) → P c → P (choose c).1)
      → ((c : EventContext W) → P c → RoundAll P (send_chosen cb c.omsg c))
      → (ctx : EventContext W) → P ctx
      → RoundAll P (round cb ctx)
  unfolding round
  round-All chosen sent ctx h =
      let after = chosen ctx h in
      elim (Bool-cases (choose ctx).0) [
        | inl going ↦ rw going (sent (choose ctx).1 after)
        | inr stop ↦ rw stop after
      ]

  whichever :
      (b : Bool) (p q : Option (ℤ × EventContext W))
      → SentAll P p
      → SentAll P q
      → SentAll P (if b then p else q)
  whichever true p q h k = h
  whichever false p q h k = k

  pub event_send-All :
      ((c : EventContext W) → P c → RoundAll P (round cb c))
      → (rounds : ℕ) (ctx : EventContext W) → P ctx
      → SentAll P (event_send cb rounds ctx)
  unfolding event_send
  event_send-All step zero ctx h = whichever (want_to_write ctx) none (some (pos 0, ctx)) tt h
  event_send-All step (suc rounds) ctx h =
      whichever (want_to_write ctx) (after_round (event_send cb rounds) (round cb ctx))
        (some (pos 0, ctx))
        (after_round-All (event_send cb rounds) (event_send-All step rounds) (round cb ctx)
          (step ctx h))
        h

  pub event_recv-All :
      (on : RecvCallbacks W)
      → ((c : EventContext W) → P c → RoundAll P (recv_round on cb c))
      → (rounds : ℕ) (ctx : EventContext W) → P ctx
      → SentAll P (event_recv on cb rounds ctx)
  unfolding event_recv
  event_recv-All on step zero ctx h = whichever ctx.read_enabled none (some (pos 0, ctx)) tt h
  event_recv-All on step (suc rounds) ctx h =
      whichever ctx.read_enabled (after_round (event_recv on cb rounds) (recv_round on cb ctx))
        (some (pos 0, ctx))
        (after_round-All (event_recv on cb rounds) (event_recv-All on step rounds)
          (recv_round on cb ctx) (step ctx h))
        h
