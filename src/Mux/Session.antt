-- ===== src/Mux/Session.antt =====
-- Sessions of `mux` calls: the DTS sequence of each output stream.
use lpms.Common.{ℕ, ℤ, ◌≤ℤ◌, nopts, ◌≡◌, ◌≢◌, refl, arith, Bool, List, [], ◌∷◌, if◌then◌else◌, ◌==◌}
use lpms.Media.{Packet, MediaType, video, audio, subtitle, TimeOps}
use lpms.Mux.{
  MuxState, Writer, Call, fix_ts, repair_order, clamp_dts, least_dts, to_stream, write, mux_video,
  mux_audio, mux_typed, mux, mux_all,
}
use lpms.Mux.Order.{IsSet64, fix_ts-IsSet64, fix_ts-least}

-- The DTS of the packets written to one stream, newest first.
abbrev pub dts_of : ℕ → List Packet → List ℤ
dts_of s [] = []
dts_of s (p ∷ ps) = if p.stream_index == s then p.dts ∷ dts_of s ps else dts_of s ps

-- Newest first, each DTS is at least one past the DTS before it (not below it, if nonstrict).
abbrev pub Descends : Bool → List ℤ → Type 0
Descends ns [] = Unit {0}
Descends ns (d ∷ []) = IsSet64 d
Descends ns (d ∷ e ∷ r) = IsSet64 d × (least_dts ns e ≤ℤ d) × Descends ns (e ∷ r)

-- The field that remembers the last DTS of a kind of stream.
abbrev pub last_of : MediaType → MuxState → ℤ
last_of video m = m.last_video_dts
last_of audio m = m.last_audio_dts
last_of subtitle m = nopts

-- The remembered DTS is that of the newest packet, or unset before the first.
abbrev pub Remembers : ℤ → List ℤ → Type 0
Remembers last [] = last ≡ nopts
Remembers last (d ∷ r) = last ≡ d

-- `s` is the one stream of its kind, and its written timestamps are in order.
pub record Tracks (kind : MediaType) (s : ℕ) (m : MuxState) : Type 0 where
  pub remembers : Remembers (last_of kind m) (dts_of s m.written)
  pub descends : Descends m.nonstrict (dts_of s m.written)

-- What a packet in the time base of its stream must satisfy: it is on stream `s` exactly if it is
-- of that kind, its DTS is set, and its timestamps are 64-bit.
pub record IsPacketFor (kind : MediaType) (s : ℕ) (t : MediaType) (p : Packet) : Type 0 where
  pub same : t ≡ kind → p.stream_index ≡ s
  pub apart : t ≢ kind → p.stream_index ≢ s
  pub dts_set : IsSet64 p.dts
  pub pts_wide : nopts ≤ℤ p.pts

abbrev extend : Bool → ℤ → Packet → List ℤ → List ℤ
extend ns last p l = (fix_ts ns last p).dts ∷ l

extend-Descends :
    (ns : Bool) (last : ℤ) (p : Packet) (l : List ℤ)
    → IsSet64 p.dts
    → nopts ≤ℤ p.pts
    → Remembers last l
    → Descends ns l
    → Descends ns (extend ns last p l)
extend-Descends ns last p [] hd hp hr h = ground (arith, fix_ts-IsSet64 ns last p)
extend-Descends ns last p (d ∷ []) hd hp hr h =
    ground (arith, fix_ts-IsSet64 ns last p, fix_ts-least ns last p)
extend-Descends ns last p (d ∷ e ∷ r) hd hp hr h =
    ground (arith, fix_ts-IsSet64 ns last p, fix_ts-least ns last p)

fix_ts-stream_index :
    (ns : Bool) (last : ℤ) (p : Packet) → (fix_ts ns last p).stream_index ≡ p.stream_index
unfolding fix_ts clamp_dts repair_order
fix_ts-stream_index ns last p = ground arith

module _ (writer : Writer) (s : ℕ) (p : Packet) (m : MuxState) where
  mux_video-Tracks :
      IsPacketFor video s video p → Tracks video s m → Tracks video s (mux_video writer p m).1
  unfolding mux_video write
  mux_video-Tracks c t = ground (
    arith,
    c.same refl,
    fix_ts-stream_index m.nonstrict m.last_video_dts p,
    extend-Descends m.nonstrict m.last_video_dts p (dts_of s m.written),
  )

  mux_audio-Tracks :
      IsPacketFor audio s audio p → Tracks audio s m → Tracks audio s (mux_audio writer p m).1
  unfolding mux_audio write
  mux_audio-Tracks c t = ground (
    arith,
    c.same refl,
    fix_ts-stream_index m.nonstrict m.last_audio_dts p,
    extend-Descends m.nonstrict m.last_audio_dts p (dts_of s m.written),
  )

  -- A packet of another kind leaves the stream alone.
  mux_typed-apart :
      (kind t : MediaType)
      → kind ≢ subtitle
      → t ≢ kind
      → p.stream_index ≢ s
      → Tracks kind s m
      → Tracks kind s (mux_typed writer t p m).1
  unfolding mux_typed mux_video mux_audio write
  mux_typed-apart video video hk ht hs k = absurd (ht refl)
  mux_typed-apart video audio hk ht hs k =
      ground (arith, fix_ts-stream_index m.nonstrict m.last_audio_dts p)
  mux_typed-apart video subtitle hk ht hs k = ground arith
  mux_typed-apart audio video hk ht hs k =
      ground (arith, fix_ts-stream_index m.nonstrict m.last_video_dts p)
  mux_typed-apart audio audio hk ht hs k = absurd (ht refl)
  mux_typed-apart audio subtitle hk ht hs k = ground arith
  mux_typed-apart subtitle _ hk ht hs k = absurd (hk refl)

mux_typed-Tracks :
    (writer : Writer) (s : ℕ) (p : Packet) (m : MuxState) (kind t : MediaType)
    → kind ≢ subtitle
    → IsPacketFor kind s t p
    → Tracks kind s m
    → Tracks kind s (mux_typed writer t p m).1
unfolding mux_typed
mux_typed-Tracks writer s p m video video hk c k = mux_video-Tracks writer s p m c k
mux_typed-Tracks writer s p m audio audio hk c k = mux_audio-Tracks writer s p m c k
mux_typed-Tracks writer s p m subtitle t hk c k = absurd (hk refl)
mux_typed-Tracks writer s p m video audio hk c k =
    mux_typed-apart writer s p m video audio hk (λ e. cc) (c.apart (λ e. cc)) k
mux_typed-Tracks writer s p m video subtitle hk c k =
    mux_typed-apart writer s p m video subtitle hk (λ e. cc) (c.apart (λ e. cc)) k
mux_typed-Tracks writer s p m audio video hk c k =
    mux_typed-apart writer s p m audio video hk (λ e. cc) (c.apart (λ e. cc)) k
mux_typed-Tracks writer s p m audio subtitle hk c k =
    mux_typed-apart writer s p m audio subtitle hk (λ e. cc) (c.apart (λ e. cc)) k

-- Every call of a session puts a packet as above on its output stream.
abbrev pub AreFor : TimeOps → MediaType → ℕ → List Call → Type 0
AreFor ops kind s [] = Unit {0}
AreFor ops kind s (c ∷ cs) =
    IsPacketFor kind s c.ost.codec_type (to_stream ops c.pkt c.tb c.ost) × AreFor ops kind s cs

-- Whatever the muxer answers, a session of `mux` calls on packets whose DTS is set keeps the
-- timestamps of the video stream, and of the audio stream, in order: the state remembers the last
-- DTS of the stream, and each DTS written to it is more than the one before (or not less, where
-- the format is nonstrict).
pub mux_all-Tracks :
    (ops : TimeOps) (writer : Writer) (kind : MediaType) (s : ℕ) (cs : List Call) (m : MuxState)
    → kind ≢ subtitle
    → AreFor ops kind s cs
    → Tracks kind s m
    → Tracks kind s (mux_all ops writer cs m)
unfolding mux_all mux
mux_all-Tracks ops writer kind s [] m hk hc h = h
mux_all-Tracks ops writer kind s (c ∷ cs) m hk hc h =
    mux_all-Tracks ops writer kind s cs _ hk hc.1
      (mux_typed-Tracks writer s (to_stream ops c.pkt c.tb c.ost) m kind c.ost.codec_type hk hc.0 h)
