-- ===== src/Encode/Tests.antt =====
-- Tests and witnesses for `encode`.
use lpms.Common.{pos, ◌+ℤ◌, ◌-ℤ◌, ◌≡◌, refl, some, [], ◌∷◌, map}
use lpms.Ret.{err, eagain}
use lpms.Media.{Packet}
use lpms.Mux.{
  mux, to_stream, mux_typed, mux_video, fix_ts, repair_order, clamp_dts, write, least_dts,
}
use lpms.Encode.{
  encode, choose, reinit, replace, new_encoder, flush_old, mux_encoded, restore_ts, send,
  send_chosen, sends, drain,
}
use lpms.Encode.Samples.{encoding, writes, opened}
use lpms.Outlet.Samples.{encoder}
use lpms.Samples.{same_base, video_stream, frame}

-- A frame of another size: the old encoder is drained, and a new one takes over.
changes_encoder :
    let (ret, o) =
      encode same_base writes encoding video_stream
        (some (record (frame (pos 5)) { width = 32 }))
        encoder
        opened in
    (ret ≡ err eagain)
    × (o.vc ≡ some (record encoder { id = 3; width = 32 }))
    × (map (λ (p : Packet). p.pts) o.muxing.written ≡ pos 30 ∷ pos 20 ∷ [])
    × (o.out.pixels ≡ 288)
unfolding encode choose reinit replace new_encoder flush_old mux_encoded restore_ts send send_chosen
    sends drain mux to_stream mux_typed mux_video fix_ts repair_order clamp_dts write least_dts ◌+ℤ◌
    ◌-ℤ◌
changes_encoder = (refl, refl, refl, refl)
