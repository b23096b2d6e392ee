-- ===== src/Event/View.antt =====
-- The part of the context that `wslay_event_recv` keeps for the message that comes in, and what the
-- callbacks of the user leave alone of it.
use wslay.Prelude.{
  ℕ, suc, ◌+◌, ◌≤◌, ◌<◌, ◌≡◌, refl, sym, ap, ◌∙◌, Bool, true, false, not, ◌==◌, if◌then◌else◌, List,
  [], ◌∷◌, ◌++◌, arith, length, take, drop, ap₂, replicate, length-replicate, nil_of_length,
  take_all, take-append,
}
use mathlib.Core.List.{append_assoc, append-nil}
use wslay.Protocol.{text_frame, Iocb}
use wslay.Utf8.{run, utf8_accept}
use wslay.Frame.Recv.{store}
use wslay.Frame.Recv.Buffer.{length-store}
use wslay.Event.Context.{Imsg, EventContext, User}
use wslay.Event.Send.{is_some}
use wslay.Event.Recv.{
  OnMsgRecvArg, RecvCallbacks, fill_chunk, call_start, call_chunk, call_end, call_msg,
}
use wslay.Event.Chunks.{concat}

pub record View : Type 0 where
  pub config : ℕ
  pub max : ℕ
  pub server : Bool
  pub imsgs : Imsg × Imsg
  pub second : Bool
  pub len : ℕ
  pub off : ℕ

abbrev pub pick : Bool → Imsg × Imsg → Imsg
pick second p = if second then p.1 else p.0

abbrev place : Bool → Imsg → Imsg × Imsg → Imsg × Imsg
place second m p = if second then (p.0, m) else (m, p.1)

-- The message in progress, and the other one.
abbrev pub msg_of : View → Imsg
msg_of v = pick v.second v.imsgs

abbrev pub other_of : View → Imsg
other_of v = pick (not v.second) v.imsgs

abbrev pub view : {W : Type 0} → EventContext W → View
view ctx = record {
  config = ctx.config;
  max = ctx.max_recv_msg_length;
  server = ctx.server;
  imsgs = ctx.imsgs;
  second = ctx.imsg_is_second;
  len = ctx.ipayloadlen;
  off = ctx.ipayloadoff;
}

-- Callbacks that leave that part alone, and a record of the messages passed to the user, to which
-- only the last of them adds.
pub record IsObserver {W : Type 0} (on : RecvCallbacks W) (log : User W → List OnMsgRecvArg)
    : Type 0 where
  pub on_start :
      (iocb : Iocb) (ctx : EventContext W)
      → (view (call_start on iocb ctx) ≡ view ctx)
        × (log (call_start on iocb ctx).user ≡ log ctx.user)
  pub on_chunk :
      (iocb : Iocb) (ctx : EventContext W)
      → (view (call_chunk on iocb ctx) ≡ view ctx)
        × (log (call_chunk on iocb ctx).user ≡ log ctx.user)
  pub on_end :
      (ctx : EventContext W)
      → (view (call_end on ctx) ≡ view ctx) × (log (call_end on ctx).user ≡ log ctx.user)
  pub on_msg :
      (arg : OnMsgRecvArg) (ctx : EventContext W)
      → (view (call_msg on arg ctx) ≡ view ctx)
        × (log (call_msg on arg ctx).user ≡ log ctx.user ++ arg ∷ [])
  pub wanted : is_some on.on_msg_recv_callback ≡ true

-- The state of the UTF-8 check after the bytes so far; only texts are checked.
abbrev pub text_state : ℕ → List ℕ → ℕ
text_state op bytes = if op == text_frame then run utf8_accept bytes else utf8_accept

-- The view with another message in progress.
abbrev pub put : Imsg → View → View
put m v = record v { imsgs = place v.second m v.imsgs }

pick-place : (b : Bool) (m : Imsg) (p : Imsg × Imsg) → pick b (place b m p) ≡ m
pick-place true m p = refl
pick-place false m p = refl

pick-place_other :
    (b : Bool) (m : Imsg) (p : Imsg × Imsg) → pick (not b) (place b m p) ≡ pick (not b) p
pick-place_other true m p = refl
pick-place_other false m p = refl

place-place : (b : Bool) (m n : Imsg) (p : Imsg × Imsg) → place b m (place b n p) ≡ place b m p
place-place true m n p = refl
place-place false m n p = refl

place-pick : (b : Bool) (p : Imsg × Imsg) → place b (pick b p) p ≡ p
place-pick true p = refl
place-pick false p = refl

pub msg_of-put : (m : Imsg) (v : View) → msg_of (put m v) ≡ m
msg_of-put m v = pick-place v.second m v.imsgs

pub other_of-put : (m : Imsg) (v : View) → other_of (put m v) ≡ other_of v
other_of-put m v = pick-place_other v.second m v.imsgs

pub put-put : (m n : Imsg) (v : View) → put m (put n v) ≡ put m v
put-put m n v = ap (λ x. record v { imsgs = x }) (place-place v.second m n v.imsgs)

pub put_self : (v : View) → put (msg_of v) v ≡ v
put_self v = ap (λ x. record v { imsgs = x }) (place-pick v.second v.imsgs)

-- The chunks hold the earlier frames `m`, and `d` of the current one of `n` bytes.
pub data Held (m : List ℕ) (n : ℕ) (d : List ℕ) (chunks : List (List ℕ)) : Type 0 where
  no_chunk : n ≡ 0 → concat chunks ≡ m → Held m n d chunks
  last_chunk :
      (cs : List (List ℕ)) (c : List ℕ)
      → chunks ≡ cs ++ c ∷ []
      → concat cs ≡ m
      → length c ≡ n
      → take (length d) c ≡ d
      → Held m n d chunks

concat-append : (cs ds : List (List ℕ)) → concat (cs ++ ds) ≡ concat cs ++ concat ds
concat-append [] ds = refl
concat-append (c ∷ cs) ds =
    ap (λ t. c ++ t) (concat-append cs ds) ∙ sym (append_assoc c (concat cs) (concat ds))

fill_chunk-last :
    (off : ℕ) (bytes : List ℕ) (cs : List (List ℕ)) (c : List ℕ)
    → fill_chunk off bytes (cs ++ c ∷ []) ≡ cs ++ store c off bytes ∷ []
unfolding fill_chunk
fill_chunk-last off bytes [] c = refl
fill_chunk-last off bytes (x ∷ []) c = refl
fill_chunk-last off bytes (x ∷ y ∷ cs) c = ap (λ t. x ∷ t) (fill_chunk-last off bytes (y ∷ cs) c)

take-store :
    (c d p : List ℕ)
    → take (length d) c ≡ d
    → length d + length p ≤ length c
    → take (length (d ++ p)) (store c (length d) p) ≡ d ++ p
take-store c d p e fits =
    let n = length d in
    let rest = drop (n + length p) c in
    ap (λ t. take (length (d ++ p)) (t ++ (p ++ rest))) e
    ∙ ap (take (length (d ++ p))) (sym (append_assoc d p rest))
    ∙ take-append (d ++ p) rest

-- More of the current frame is filled in.
pub Held-fill :
    (m d p : List ℕ) (n : ℕ) (chunks : List (List ℕ))
    → length d + length p ≤ n
    → 0 < length p
    → Held m n d chunks
    → Held m n (d ++ p) (fill_chunk (length d) p chunks)
Held-fill m d p n chunks fits some_bytes (no_chunk e q) =
    absurd (omega (arith, e, fits, some_bytes))
Held-fill m d p n chunks fits some_bytes (last_chunk cs c e q size kept) =
    last_chunk cs (store c (length d) p)
      (ap (fill_chunk (length d) p) e ∙ fill_chunk-last (length d) p cs c) q
      (length-store c p (length d) (omega (arith, fits, size)) ∙ size)
      (take-store c d p kept (omega (arith, fits, size)))

-- A whole frame is in.
pub Held-whole :
    (m d : List ℕ) (n : ℕ) (chunks : List (List ℕ))
    → length d ≡ n
    → Held m n d chunks
    → concat chunks ≡ m ++ d
Held-whole m d n chunks size (no_chunk e q) =
    let none : d ≡ [] = nil_of_length d (size ∙ e) in
    q ∙ sym (append-nil m) ∙ ap (λ t. m ++ t) (sym none)
Held-whole m d n chunks size (last_chunk cs c e q s kept) =
    let all : c ≡ d = sym (take_all c) ∙ ap (λ k. take k c) (s ∙ sym size) ∙ kept in
    ap concat e ∙ concat-append cs (c ∷ []) ∙ ap₂ ◌++◌ q (append-nil c ∙ all)

-- A new frame gets a chunk of its own, unless it is empty.
pub Held-new :
    (m : List ℕ) (n : ℕ) (chunks : List (List ℕ))
    → concat chunks ≡ m
    → Held m (suc n) [] (chunks ++ replicate (suc n) 0 ∷ [])
Held-new m n chunks e =
    last_chunk chunks (replicate (suc n) 0) refl e (length-replicate (suc n) 0) refl
