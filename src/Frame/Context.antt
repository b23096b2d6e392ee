-- ===== src/Frame/Context.antt =====
-- src/wslay/frame.h and the callback types of wslay.h: the state of the frame layer, its user
-- callbacks, and the outcome of its functions.
--
-- The input and the output fields of `wslay_frame_context` are two records, since each function
-- uses only one half. A pointer into a buffer is an offset from its start. `callbacks` is a
-- parameter of the functions, and what `user_data` points to is the world that they thread.
use wslay.Prelude.{ℕ, Bool, false, List, replicate, ◌≡◌, refl, subst, ◌⊎◌, inl, inr}
use wslay.Protocol.{Error}

-- `enum wslay_frame_state`
pub data FrameState : Type 0 where
  prep_header send_header send_payload recv_header1 recv_payloadlen recv_ext_payloadlen : FrameState
  recv_maskkey recv_payload : FrameState

-- `struct wslay_frame_opcode_memo`
pub record OpcodeMemo : Type 0 where
  pub fin : ℕ
  pub opcode : ℕ
  pub rsv : ℕ

abbrev pub ibuf_size : ℕ
ibuf_size = 4096

-- The fields of `wslay_frame_context` that `wslay_frame_recv` uses.
pub record RecvContext : Type 0 where
  pub ibuf : List ℕ
  pub ibufmark : ℕ
  pub ibuflimit : ℕ
  pub iom : OpcodeMemo
  pub ipayloadlen : ℕ
  pub ipayloadoff : ℕ
  pub imask : Bool
  pub imaskkey : List ℕ
  pub istate : FrameState
  pub ireqread : ℕ

-- The fields of `wslay_frame_context` that `wslay_frame_send` uses.
pub record SendContext : Type 0 where
  pub oheader : List ℕ
  pub oheadermark : ℕ
  pub oheaderlimit : ℕ
  pub opayloadlen : ℕ
  pub opayloadoff : ℕ
  pub omask : Bool
  pub omaskkey : List ℕ
  pub ostate : FrameState

pub record FrameContext : Type 0 where
  pub input : RecvContext
  pub output : SendContext

-- `wslay_frame_context_new`, when `talloc_zero` returns memory.
unfoldable pub frame_context_new : FrameContext
frame_context_new = record {
  input = record {
    ibuf = replicate ibuf_size 0;
    ibufmark = 0;
    ibuflimit = 0;
    iom = record { fin = 0; opcode = 0; rsv = 0 };
    ipayloadlen = 0;
    ipayloadoff = 0;
    imask = false;
    imaskkey = replicate 4 0;
    istate = recv_header1;
    ireqread = 2;
  };
  output = record {
    oheader = replicate 14 0;
    oheadermark = 0;
    oheaderlimit = 0;
    opayloadlen = 0;
    opayloadoff = 0;
    omask = false;
    omaskkey = replicate 4 0;
    ostate = prep_header;
  };
}

-- `struct wslay_frame_callbacks`, over a world `W` that the callbacks read and change.
--
-- `send_callback data flags user_data_sending` returns how many bytes it sent, 0 standing for
-- every return value that is not positive. `recv_callback len` returns the bytes that it filled in,
-- [] standing likewise for 0 and -1. `genmask_callback len` returns whether it succeeded, and what
-- the buffer holds afterwards.
pub record FrameCallbacks (W : Type 0) : Type 0 where
  pub send_callback : List ℕ → ℕ → Bool → W → ℕ × W
  pub recv_callback : ℕ → W → List ℕ × W
  pub genmask_callback : ℕ → W → Bool × List ℕ × W

-- A return value with the state that the function leaves: 0 with what it stores through its
-- result pointer, or an error.
pub data Outcome (S : Type 0) (A : Type 0) : Type 0 where
  ok : A → S → Outcome S A
  err : Error → S → Outcome S A

infixl 5 ◌>>=◌
abbrev pub ◌>>=◌ : {S A B : Type 0} → Outcome S A → (A → S → Outcome S B) → Outcome S B
ok a s >>= f = f a s
err e s >>= f = err e s

-- One half of the context, and the world.
pub record At (C W : Type 0) : Type 0 where
  pub ctx : C
  pub world : W

-- A postcondition of each kind of return.
abbrev pub Ensures : {S A : Type 0} → (A → S → Type 0) → (Error → S → Type 0) → Outcome S A → Type 0
Ensures P Q (ok a s) = P a s
Ensures P Q (err e s) = Q e s

pub Ensures-bind :
    {S A B : Type 0} (P : A → S → Type 0) (Q : Error → S → Type 0) (P' : B → S → Type 0)
    (m : Outcome S A) (f : A → S → Outcome S B)
    → Ensures P Q m
    → ((a : A) (s : S) → P a s → Ensures P' Q (f a s))
    → Ensures P' Q (m >>= f)
Ensures-bind P Q P' (ok a s) f h k = k a s h
Ensures-bind P Q P' (err e s) f h k = h

pub Ensures-mono :
    {S A : Type 0} (P P' : A → S → Type 0) (Q Q' : Error → S → Type 0) (m : Outcome S A)
    → Ensures P Q m
    → ((a : A) (s : S) → P a s → P' a s)
    → ((e : Error) (s : S) → Q e s → Q' e s)
    → Ensures P' Q' m
Ensures-mono P P' Q Q' (ok a s) h f g = f a s h
Ensures-mono P P' Q Q' (err e s) h f g = g e s h

pub Ensures-and :
    {S A : Type 0} (P P' : A → S → Type 0) (Q Q' : Error → S → Type 0) (m : Outcome S A)
    → Ensures P Q m
    → Ensures P' Q' m
    → Ensures (λ a s. P a s × P' a s) (λ e s. Q e s × Q' e s) m
Ensures-and P P' Q Q' (ok a s) h k = (h, k)
Ensures-and P P' Q Q' (err e s) h k = (h, k)

-- The postcondition of the return that there is.
pub Ensures-ok :
    {S A : Type 0} (P : A → S → Type 0) (Q : Error → S → Type 0) (m : Outcome S A) (a : A) (s : S)
    → Ensures P Q m
    → m ≡ ok a s
    → P a s
Ensures-ok P Q m a s h e = subst (Ensures P Q) e h

pub Ensures-err :
    {S A : Type 0} (P : A → S → Type 0) (Q : Error → S → Type 0) (m : Outcome S A) (e : Error)
    (s : S)
    → Ensures P Q m
    → m ≡ err e s
    → Q e s
Ensures-err P Q m e s h eq = subst (Ensures P Q) eq h

pub Outcome-cases :
    {S A : Type 0} (m : Outcome S A)
    → ((a : A) × (s : S) × (m ≡ ok a s)) ⊎ ((e : Error) × (s : S) × (m ≡ err e s))
Outcome-cases (ok a s) = inl (a, s, refl)
Outcome-cases (err e s) = inr (e, s, refl)
