-- ===== src/Frame/Recv/Order.antt =====
-- The order of the stages of `wslay_frame_recv`, and what their parsing leaves alone.
use wslay.Prelude.{ℕ, ◌≢◌, ◌≤◌, ◌≡◌, refl, arith}
use wslay.Protocol.{want_read, proto}
use wslay.Frame.Context.{
  FrameState, recv_ext_payloadlen, recv_maskkey, recv_payload, RecvContext, FrameCallbacks, At,
  Ensures,
}
use wslay.Frame.Recv.{parse_header1, parse_ext_length, parse_maskkey}

pub proto-ne-want : proto ≢ want_read
proto-ne-want e = ground (arith, e)

-- The order of the stages.
unfoldable pub rank : FrameState → ℕ
rank recv_ext_payloadlen = 1
rank recv_maskkey = 2
rank recv_payload = 3
rank _ = 0

module _ {W : Type 0} (cb : FrameCallbacks W) where
  pub parse_header1-rank :
      (s : At RecvContext W)
      → Ensures
          (λ _ t. (1 ≤ rank t.ctx.istate) × (t.world ≡ s.world))
          (λ e _. e ≡ proto)
          (parse_header1 cb s)
  unfolding parse_header1 rank
  parse_header1-rank s = ground arith

  pub parse_ext_length-rank :
      (s : At RecvContext W)
      → Ensures
          (λ _ t. (2 ≤ rank t.ctx.istate) × (t.world ≡ s.world))
          (λ e _. e ≡ proto)
          (parse_ext_length cb s)
  unfolding parse_ext_length rank
  parse_ext_length-rank s = ground arith

  pub parse_maskkey-rank :
      (s : At RecvContext W)
      → Ensures
          (λ _ t. (3 ≤ rank t.ctx.istate) × (t.world ≡ s.world))
          (λ e _. e ≡ proto)
          (parse_maskkey cb s)
  unfolding parse_maskkey rank
  parse_maskkey-rank s = (omega arith, refl)
