-- ===== src/Event/Script.antt =====
-- Messages as sequences of frames, each given by the pieces in which it comes in.
use wslay.Prelude.{
  ℕ, suc, ◌≤◌, ◌≡◌, ◌≢◌, refl, sym, ap, subst, ◌∙◌, ◌⊎◌, inl, inr, Bool, true, false, not, ◌==◌,
  List, [], ◌∷◌, ◌++◌, arith, length, length-append, All, IsByte, bit_and,
}
use wslay.Protocol.{
  text_frame, binary_frame, connection_close, ping, pong, Iocb, continuation_frame,
}
use wslay.Utf8.{utf8_accept, utf8_reject}
use wslay.Event.Context.{QueueState, live, freed, misused, Imsg, config_no_buffering}
use wslay.Event.Recv.{OnMsgRecvArg, is_control}
use wslay.Event.Chunks.{concat}
use wslay.Event.View.{View, pick, text_state}
use wslay.Event.Pieces.{Slot}
use wslay.Event.Finish.{IsBlank, IsReset, IsOver, passed}
use wslay.Event.Cuts.{IsCut, frame_iocbs, alive_before}

-- What follows the first frame of a message: its last frame, an inner one, or a whole control
-- message. A frame is given by its pieces.
pub data Rest : Type 0 where
  ends : List (List ℕ) → Rest
  goes_on : List (List ℕ) → Rest → Rest
  control : ℕ → List (List ℕ) → Rest → Rest

pub data Message : Type 0 where
  whole : ℕ → List (List ℕ) → Message
  begun : ℕ → List (List ℕ) → Rest → Message

-- What `wslay_frame_recv` returns for it.
abbrev pub rest_iocbs : Bool → Rest → List Iocb
rest_iocbs mask (ends ps) = frame_iocbs 1 continuation_frame mask ps
rest_iocbs mask (goes_on ps r) = frame_iocbs 0 continuation_frame mask ps ++ rest_iocbs mask r
rest_iocbs mask (control op ps r) = frame_iocbs 1 op mask ps ++ rest_iocbs mask r

abbrev pub message_iocbs : Bool → Message → List Iocb
message_iocbs mask (whole op ps) = frame_iocbs 1 op mask ps
message_iocbs mask (begun op ps r) = frame_iocbs 0 op mask ps ++ rest_iocbs mask r

-- What is passed on: every control message as it comes, and the data message, with the payload `m`
-- before, when it is whole.
abbrev pub rest_passed : ℕ → List ℕ → Rest → List OnMsgRecvArg
rest_passed op m (ends ps) = passed op (m ++ concat ps) ∷ []
rest_passed op m (goes_on ps r) = rest_passed op (m ++ concat ps) r
rest_passed op m (control o ps r) = passed o (concat ps) ∷ rest_passed op m r

abbrev pub message_passed : Message → List OnMsgRecvArg
message_passed (whole op ps) = passed op (concat ps) ∷ []
message_passed (begun op ps r) = rest_passed op (concat ps) r

-- The control messages inside a message.
abbrev pub controls : Rest → ℕ
controls (ends ps) = 0
controls (goes_on ps r) = controls r
controls (control o ps r) = suc (controls r)

-- The frames are cut as `wslay_frame_recv` cuts them, control messages are pings or pongs of at most
-- 125 bytes, the whole message is not longer than the limit, and a text is well-formed.
abbrev pub IsFrameCut : List (List ℕ) → Type 0
IsFrameCut ps = IsCut (length (concat ps)) ps × All IsByte (concat ps)

abbrev pub IsGoodRest : ℕ → ℕ → List ℕ → Rest → Type 0
IsGoodRest max op m (ends ps) =
    IsFrameCut ps × (length (m ++ concat ps) ≤ max) × (text_state op (m ++ concat ps) ≡ utf8_accept)
IsGoodRest max op m (goes_on ps r) = IsFrameCut ps × IsGoodRest max op (m ++ concat ps) r
IsGoodRest max op m (control o ps r) =
    IsFrameCut ps
    × ((o ≡ ping) ⊎ (o ≡ pong))
    × (length (concat ps) ≤ 125)
    × (length (concat ps) ≤ max)
    × IsGoodRest max op m r

abbrev pub IsGood : ℕ → Message → Type 0
IsGood max (whole op ps) =
    IsFrameCut ps
    × ((op ≡ text_frame) ⊎ (op ≡ binary_frame) ⊎ (op ≡ ping) ⊎ (op ≡ pong))
    × ((op == ping) ≡ true → length (concat ps) ≤ 125)
    × (length (concat ps) ≤ max)
    × (text_state op (concat ps) ≡ utf8_accept)
IsGood max (begun op ps r) =
    IsFrameCut ps
    × ((op ≡ text_frame) ⊎ (op ≡ binary_frame))
    × (controls r ≤ 1)
    × IsGoodRest max op (concat ps) r

-- The place of control messages can still take those of the rest: it has not been used and there is
-- at most one, or there is none.
abbrev pub is_misused : QueueState → Bool
is_misused misused = true
is_misused live = false
is_misused freed = false

abbrev pub HasPlace : Rest → Imsg → Type 0
HasPlace r i = ((controls r ≡ 0) × (is_misused i.queue ≡ false)) ⊎ ((controls r ≤ 1) × IsBlank i)

pub HasPlace-fine : (r : Rest) (i : Imsg) → HasPlace r i → is_misused i.queue ≡ false
HasPlace-fine r i (inl (nothing, fine)) = fine
HasPlace-fine r i (inr (one, blank)) = ap is_misused blank.queue

-- No message is in progress, and none has been.
pub record IsIdle (max : ℕ) (server : Bool) (v : View) : Type 0 where
  pub config : bit_and v.config config_no_buffering ≡ 0
  pub limit : v.max ≡ max
  pub role : v.server ≡ server
  pub first : v.second ≡ false
  pub blank : IsBlank v.imsgs.0
  pub blank_second : IsBlank v.imsgs.1
  pub len : v.len ≡ 0
  pub off : v.off ≡ 0

-- A good rest fits, and has not been refused so far.
pub rest_fits : (max op : ℕ) (m : List ℕ) (r : Rest) → IsGoodRest max op m r → length m ≤ max
rest_fits max op m (ends ps) g = omega (arith, g.1, length-append m (concat ps))
rest_fits max op m (goes_on ps r) g =
    omega (arith, rest_fits max op (m ++ concat ps) r g.1, length-append m (concat ps))
rest_fits max op m (control o ps r) g = rest_fits max op m r g.4

pub accept-ne_reject : {s : ℕ} → s ≡ utf8_accept → s ≢ utf8_reject
accept-ne_reject e q = absurd (omega (arith, e, q))

pub rest_alive :
    (max op : ℕ) (m : List ℕ) (r : Rest) → IsGoodRest max op m r → text_state op m ≢ utf8_reject
rest_alive max op m (ends ps) g = alive_before op m (concat ps) g.0.1 (accept-ne_reject g.2)
rest_alive max op m (goes_on ps r) g =
    alive_before op m (concat ps) g.0.1 (rest_alive max op (m ++ concat ps) r g.1)
rest_alive max op m (control o ps r) g = rest_alive max op m r g.4

-- A message has come in, and no other one is in progress: the queue of the first place has been freed
-- once, and neither queue has been used or freed after it was freed.
pub record IsDone (max : ℕ) (server : Bool) (v : View) : Type 0 where
  pub config : bit_and v.config config_no_buffering ≡ 0
  pub limit : v.max ≡ max
  pub role : v.server ≡ server
  pub first : v.second ≡ false
  pub reset : IsReset v.imsgs.0
  pub fine : is_misused v.imsgs.1.queue ≡ false
  pub len : v.len ≡ 0
  pub off : v.off ≡ 0

pub IsOver-IsDone :
    (k : Slot) (v : View)
    → bit_and k.config config_no_buffering ≡ 0
    → k.second ≡ false
    → is_misused k.other.queue ≡ false
    → IsOver k v
    → IsDone k.max k.server v
IsOver-IsDone k v keep slot fine over = record {
  config = ap (λ x. bit_and x config_no_buffering) over.config ∙ keep;
  limit = over.max;
  role = over.server;
  first = over.first;
  reset = subst (λ b. IsReset (pick b v.imsgs)) slot over.reset;
  fine =
      ap (λ (i : Imsg). is_misused i.queue) (sym (ap (λ b. pick (not b) v.imsgs) slot) ∙ over.other)
      ∙ fine;
  len = over.len;
  off = over.off;
}

-- What is known of the opcode of a data message.
pub record IsData (op : ℕ) : Type 0 where
  pub not_close : (op == connection_close) ≡ false
  pub used : (op == 0xff) ≡ false
  pub not_ping : (op == ping) ≡ false

pub record IsControl (o : ℕ) : Type 0 where
  pub not_close : (o == connection_close) ≡ false
  pub used : (o == 0xff) ≡ false
  pub not_next : (o == continuation_frame) ≡ false
  pub not_text : (o == text_frame) ≡ false
  pub kind : is_control o ≡ true

pub IsData-cases : (op : ℕ) → (op ≡ text_frame) ⊎ (op ≡ binary_frame) → IsData op
IsData-cases op (inl e) = record { not_close = rw e refl; used = rw e refl; not_ping = rw e refl }
IsData-cases op (inr e) = record { not_close = rw e refl; used = rw e refl; not_ping = rw e refl }

pub IsControl-cases : (o : ℕ) → (o ≡ ping) ⊎ (o ≡ pong) → IsControl o
IsControl-cases o (inl e) = record {
  not_close = rw e refl;
  used = rw e refl;
  not_next = rw e refl;
  not_text = rw e refl;
  kind = rw e refl;
}
IsControl-cases o (inr e) = record {
  not_close = rw e refl;
  used = rw e refl;
  not_next = rw e refl;
  not_text = rw e refl;
  kind = rw e refl;
}

pub unchecked : (o : ℕ) (xs : List ℕ) → (o == text_frame) ≡ false → text_state o xs ≡ utf8_accept
unchecked o xs e = rw e refl
