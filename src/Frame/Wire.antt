-- ===== src/Frame/Wire.antt =====
-- The base framing of RFC 6455, section 5.2, as arithmetic on the fields of a frame: what the
-- functions of frame.c are compared with. Nothing here is code of the library.
use wslay.Prelude.{
  ℕ, ◌+◌, ◌*◌, ◌^◌, ◌<◌, ◌≤◌, ◌≡◌, refl, sym, ap, ◌∙◌, arith, Bool, true, false, ltb, if◌then◌else◌,
  List, [], ◌∷◌, ◌++◌, length,
}
use wslay.Protocol.{is_ctrl_frame, Iocb}
use mathlib.Core.List.{append_assoc}
use wslay.Frame.Bytes.{be_bytes, mask_bytes, mask_bytes-append, mask_bytes_cancel}

-- The fields of a header. Of an unmasked frame the key is not sent.
pub record Header : Type 0 where
  pub fin : ℕ
  pub rsv : ℕ
  pub opcode : ℕ
  pub mask : Bool
  pub payload_length : ℕ

-- The seven bits of the length, and the extended length, in the shortest form.
abbrev pub short_length : ℕ → ℕ
short_length n = if ltb n 126 then n else if ltb n (2 ^ 16) then 126 else 127

abbrev pub extended_length : ℕ → List ℕ
extended_length n = if ltb n 126 then [] else if ltb n (2 ^ 16) then be_bytes 2 n else be_bytes 8 n

abbrev pub first : Header → ℕ
first h = h.fin * 128 + h.rsv * 16 + h.opcode

abbrev pub mask_flag : Bool → ℕ
mask_flag m = if m then 128 else 0

abbrev pub second : Header → ℕ
second h = mask_flag h.mask + short_length h.payload_length

-- The header that a control block reports.
abbrev pub iocb_header : Iocb → Header
iocb_header iocb = record {
  fin = iocb.fin;
  rsv = iocb.rsv;
  opcode = iocb.opcode;
  mask = iocb.mask;
  payload_length = iocb.payload_length;
}

-- The bytes up to the key.
abbrev pub prefix : Header → List ℕ
prefix h = first h ∷ second h ∷ extended_length h.payload_length

unfoldable pub header : Header → List ℕ → List ℕ
header h key = prefix h ++ (if h.mask then key else [])

-- The payload bytes as sent, from some offset in the payload.
unfoldable pub masked : Bool → List ℕ → ℕ → List ℕ → List ℕ
masked m key off payload = if m then mask_bytes key off payload else payload

-- A frame, or as much of it as the payload bytes say.
unfoldable pub frame : Header → List ℕ → List ℕ → List ℕ
frame h key payload = header h key ++ masked h.mask key 0 payload

pub frame_lem :
    (h : Header) (key payload : List ℕ)
    → frame h key payload ≡ header h key ++ masked h.mask key 0 payload
unfolding frame
frame_lem h key payload = refl

pub masked-nil : (m : Bool) (key : List ℕ) (off : ℕ) → masked m key off [] ≡ []
unfolding masked mask_bytes
masked-nil true key off = refl
masked-nil false key off = refl

pub masked-append :
    (m : Bool) (key xs ys : List ℕ)
    → masked m key 0 (xs ++ ys) ≡ masked m key 0 xs ++ masked m key (length xs) ys
unfolding masked
masked-append true key xs ys =
    let e : 0 + length xs ≡ length xs = omega arith in
    mask_bytes-append key 0 xs ys ∙ ap (λ k. mask_bytes key 0 xs ++ mask_bytes key k ys) e
masked-append false key xs ys = refl

pub masked_cancel :
    (m : Bool) (key : List ℕ) (off : ℕ) (xs : List ℕ) → masked m key off (masked m key off xs) ≡ xs
unfolding masked
masked_cancel true key off xs = mask_bytes_cancel key off xs
masked_cancel false key off xs = refl

pub frame-append :
    (h : Header) (key xs ys : List ℕ)
    → frame h key (xs ++ ys) ≡ frame h key xs ++ masked h.mask key (length xs) ys
frame-append h key xs ys =
    frame_lem h key (xs ++ ys)
    ∙ ap (λ t. header h key ++ t) (masked-append h.mask key xs ys)
    ∙ sym (append_assoc (header h key) (masked h.mask key 0 xs) (masked h.mask key (length xs) ys))
    ∙ ap (λ t. t ++ masked h.mask key (length xs) ys) (sym (frame_lem h key xs))

-- The ranges that the fields have in a frame. A control frame is whole, and short.
pub record IsLegal (h : Header) : Type 0 where
  pub fin : h.fin < 2
  pub rsv : h.rsv < 8
  pub opcode : h.opcode < 16
  pub size : h.payload_length < 2 ^ 63
  pub ctrl_short : is_ctrl_frame h.opcode ≡ true → h.payload_length ≤ 125
  pub ctrl_whole : is_ctrl_frame h.opcode ≡ true → h.fin ≡ 1
