-- ===== src/Frame/Recv/Buffer.antt =====
-- The input buffer of the frame layer: the bytes between its two marks.
use wslay.Prelude.{
  ℕ, zero, suc, ◌+◌, ◌-◌, ◌%◌, ◌≤◌, ◌<◌, ◌≡◌, refl, sym, ap, ap₂, ◌∙◌, List, [], ◌∷◌, ◌++◌, arith,
  length, get_or, set, take, drop, slice, bit_xor, length-set, length-take, length-drop,
  length-append, length-slice, slice-suc, drop-set, get_or-set_self, get_or-set_ne, take-append,
  drop-drop, take-add,
}
use mathlib.Core.List.{append_assoc}
use wslay.Frame.Bytes.{mask_bytes}
use wslay.Frame.Context.{RecvContext, ibuf_size}
use wslay.Frame.Recv.{avail, store, shift_ibuf, unmask_loop}

-- The buffer has its size, and its marks are in order and inside it.
pub record IsBuffer (c : RecvContext) : Type 0 where
  pub size : length c.ibuf ≡ ibuf_size
  pub order : c.ibufmark ≤ c.ibuflimit
  pub inside : c.ibuflimit ≤ ibuf_size

-- The bytes that were received and are not used yet.
abbrev pub pending : RecvContext → List ℕ
pending c = slice c.ibufmark (avail c) c.ibuf

pub length-pending : {c : RecvContext} → IsBuffer c → length (pending c) ≡ avail c
length-pending {c} v = length-slice c.ibufmark (avail c) c.ibuf (omega arith)

pub length-store :
    (buf bytes : List ℕ) (at : ℕ)
    → at + length bytes ≤ length buf
    → length (store buf at bytes) ≡ length buf
length-store buf bytes at h =
    length-append (take at buf) (bytes ++ drop (at + length bytes) buf)
    ∙ omega (
      arith,
      length-append bytes (drop (at + length bytes) buf),
      length-take at buf,
      length-drop (at + length bytes) buf,
    )

-- Shifting moves the pending bytes to the start and keeps them.
pub shift_ibuf-IsBuffer : {c : RecvContext} → IsBuffer c → IsBuffer (shift_ibuf c)
unfolding shift_ibuf
shift_ibuf-IsBuffer {c} v = record {
  size = length-store c.ibuf (pending c) 0 (omega (arith, length-pending v)) ∙ v.size;
  order = omega arith;
  inside = omega arith;
}

pub pending-shift_ibuf : {c : RecvContext} → IsBuffer c → pending (shift_ibuf c) ≡ pending c
unfolding shift_ibuf
pending-shift_ibuf {c} v =
    ap (λ k. take k (pending c ++ drop (0 + length (pending c)) c.ibuf)) {x = avail c - 0}
      (omega (arith, length-pending v))
    ∙ take-append (pending c) (drop (0 + length (pending c)) c.ibuf)

-- The loop rewrites the bytes that it runs over, and no other.
module _ (key : List ℕ) where
  pub length-unmask_loop :
      (n mark off : ℕ) (ibuf : List ℕ) → length (unmask_loop n key mark off ibuf) ≡ length ibuf
  unfolding unmask_loop
  length-unmask_loop zero mark off ibuf = refl
  length-unmask_loop (suc n) mark off ibuf =
      length-unmask_loop n (mark + 1) (off + 1) _ ∙ length-set ibuf mark _

  pub drop-unmask_loop :
      (n mark off end : ℕ) (ibuf : List ℕ)
      → mark + n ≤ end
      → drop end (unmask_loop n key mark off ibuf) ≡ drop end ibuf
  unfolding unmask_loop
  drop-unmask_loop zero mark off end ibuf h = refl
  drop-unmask_loop (suc n) mark off end ibuf h =
      drop-unmask_loop n (mark + 1) (off + 1) end _ (omega arith)
      ∙ drop-set ibuf mark end _ (omega arith)

  get_or-unmask_loop :
      (n mark off i : ℕ) (ibuf : List ℕ)
      → i < mark
      → get_or (unmask_loop n key mark off ibuf) i 0 ≡ get_or ibuf i 0
  unfolding unmask_loop
  get_or-unmask_loop zero mark off i ibuf h = refl
  get_or-unmask_loop (suc n) mark off i ibuf h =
      get_or-unmask_loop n (mark + 1) (off + 1) i _ (omega arith)
      ∙ get_or-set_ne ibuf mark i _ 0 (omega arith)

  pub slice-unmask_loop :
      (n mark off : ℕ) (ibuf : List ℕ)
      → mark + n ≤ length ibuf
      → slice mark n (unmask_loop n key mark off ibuf) ≡ mask_bytes key off (slice mark n ibuf)
  unfolding mask_bytes unmask_loop
  slice-unmask_loop zero mark off ibuf h = refl
  slice-unmask_loop (suc n) mark off ibuf h =
      let x = bit_xor (get_or ibuf mark 0) (get_or key (off % 4) 0) in
      let ibuf' = set ibuf mark x in
      let out = unmask_loop n key (mark + 1) (off + 1) ibuf' in
      let next : mark + 1 ≡ suc mark = omega arith in
      let head : get_or out mark 0 ≡ x =
        get_or-unmask_loop n (mark + 1) (off + 1) mark ibuf' (omega arith)
        ∙ get_or-set_self ibuf mark x 0 (omega arith) in
      let rest : slice (mark + 1) n out ≡ mask_bytes key (off + 1) (slice (mark + 1) n ibuf) =
        slice-unmask_loop n (mark + 1) (off + 1) ibuf' (omega (arith, length-set ibuf mark x))
        ∙ ap (λ t. mask_bytes key (off + 1) (take n t))
            (drop-set ibuf mark (mark + 1) x (omega arith)) in
      let bound : mark < length out =
        omega (arith, length-unmask_loop n (mark + 1) (off + 1) ibuf', length-set ibuf mark x) in
      slice-suc mark n out 0 bound
      ∙ ap₂ ◌∷◌ head (
          ap (λ k. slice k n out) (sym next)
          ∙ rest
          ∙ ap (λ k. mask_bytes key (off + 1) (slice k n ibuf)) next)
      ∙ sym (ap (mask_bytes key off) (slice-suc mark n ibuf 0 (omega arith)))

-- Bytes stored at the limit, behind marks that start at 0, follow the pending ones.
pub pending-store :
    (c : RecvContext) (bytes : List ℕ)
    → IsBuffer c
    → c.ibufmark ≡ 0
    → c.ibuflimit + length bytes ≤ ibuf_size
    → slice 0 (c.ibuflimit + length bytes) (store c.ibuf c.ibuflimit bytes)
      ≡ slice 0 c.ibuflimit c.ibuf ++ bytes
pending-store c bytes v start fits =
    let old = take c.ibuflimit c.ibuf in
    let rest = drop (c.ibuflimit + length bytes) c.ibuf in
    let e : c.ibuflimit + length bytes ≡ length (old ++ bytes) =
      omega (arith, v.size, v.inside, length-append old bytes, length-take c.ibuflimit c.ibuf) in
    ap (λ k. take k (old ++ (bytes ++ rest))) e
    ∙ ap (take (length (old ++ bytes))) (sym (append_assoc old bytes rest))
    ∙ take-append (old ++ bytes) rest

-- The first `k` pending bytes, and those that are pending behind them.
pub pending-split :
    (k : ℕ) {c : RecvContext}
    → IsBuffer c
    → k ≤ avail c
    → pending c ≡ slice c.ibufmark k c.ibuf ++ pending (record c { ibufmark = c.ibufmark + k })
pending-split k {c} v h =
    let rest = c.ibuflimit - (c.ibufmark + k) in
    let e : avail c ≡ k + rest = omega arith in
    ap (λ n. slice c.ibufmark n c.ibuf) e
    ∙ take-add k rest (drop c.ibufmark c.ibuf)
    ∙ ap (λ t. slice c.ibufmark k c.ibuf ++ take rest t) (drop-drop c.ibufmark k c.ibuf)

-- Two bytes at the mark.
pub slice_two :
    (c : RecvContext)
    → c.ibufmark + 2 ≤ length c.ibuf
    → slice c.ibufmark 2 c.ibuf ≡ get_or c.ibuf c.ibufmark 0 ∷ get_or c.ibuf (c.ibufmark + 1) 0 ∷ []
slice_two c h =
    let e : c.ibufmark + 1 ≡ suc c.ibufmark = omega arith in
    slice-suc c.ibufmark 1 c.ibuf 0 (omega arith)
    ∙ ap (λ t. get_or c.ibuf c.ibufmark 0 ∷ t)
        (slice-suc (suc c.ibufmark) 0 c.ibuf 0 (omega arith)
          ∙ ap (λ i. get_or c.ibuf i 0 ∷ []) (sym e))
