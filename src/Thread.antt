-- ===== src/Thread.antt =====
-- A handle as a whole, `struct transcode_thread` of ffmpeg/transcoder.c: lpms_transcode_new,
-- transcode_shutdown, lpms_transcode_stop and lpms_transcode_discontinuity, its input with its outputs.
pub mod Init
pub mod Flush
pub mod Flushed
pub mod Loop
pub mod Held
pub mod Looped
pub mod Kept
pub mod Transcode
pub mod Left
pub mod Life
pub mod Stop
pub mod Stranded
pub mod Refine
pub mod Served
pub mod Stray
pub mod Simulate
pub mod Ends
pub mod Reads
pub mod Steps
pub mod Terminates
pub mod Samples
mod Tests
use lpms.Common.{
  ℕ, zero, suc, pos, negsuc, nopts, Bool, true, false, not, ◌&&◌, Option, none, some, List, [], ◌∷◌,
  map, if◌then◌else◌, replicate, take, drop, ◌++◌,
}
use lpms.Ret.{Ret, failed}
use lpms.Media.{no_hw}
use lpms.Codec.{InputCtx}
use lpms.Filter.{unnamed, no_filter, free_filter}
use lpms.Output.{OutState}
use lpms.Mux.{MuxState}
use lpms.Outlet.{OutputCtx, close_output, free_output}
use lpms.Input.{free_input, InputParams, Answers, reopen_demux}
use lpms.Session.{Handle, max_outputs}
use lpms.Session
use lpms.Transmux.{Timeline, fresh_lines, mark_discontinuity}

-- `handle` has the input and the number of outputs in use, `lines` the arrays of the input for
-- transmuxing, and `outputs` all MAX_OUTPUT_SIZE of them.
pub record Thread : Type 0 where
  pub handle : Handle
  pub lines : List Timeline
  pub outputs : List OutputCtx

-- All zeros: memset of lpms_transcode_new.
abbrev pub blank_input : InputCtx
blank_input = record {
  ic = none;
  has_vc = false;
  has_ac = false;
  vi = pos 0;
  ai = pos 0;
  dv = false;
  da = false;
  hw_type = no_hw;
  has_hw_device = false;
  transmuxing = false;
  flush_pkt = none;
  flushed = false;
  flushing = false;
  pkt_diff = 0;
  sentinel_count = 0;
  last_video_pts = pos 0;
  blocked_pkt = none;
  last_frame_v = none;
  last_frame_a = none;
  calls = [];
}

abbrev blank_counts : OutState
blank_counts = record {
  gop_pts_len = pos 0;
  next_kf_pts = pos 0;
  clip_from = pos 0;
  clip_to = pos 0;
  clip_from_pts = pos 0;
  clip_to_pts = pos 0;
  clip_started = false;
  clip_start_pts = pos 0;
  clip_start_pts_found = false;
  clip_audio_from_pts = pos 0;
  clip_audio_to_pts = pos 0;
  clip_audio_start_pts = pos 0;
  clip_audio_start_pts_found = false;
  last_enc_pts = pos 0;
  frames = 0;
  pixels = 0;
}

abbrev pub blank_output : OutputCtx
blank_output = record {
  initialized = false;
  video_name = unnamed;
  audio_name = unnamed;
  has_vfilters = false;
  sfilters = none;
  fps = none;
  gop_time = pos 0;
  oc = none;
  has_pb = false;
  vc = none;
  ac = none;
  vi = 0;
  ai = 0;
  dv = false;
  da = false;
  vf = no_filter;
  af = no_filter;
  sf = no_filter;
  hw_type = no_hw;
  muxing = record {
    drop_ts = pos 0;
    last_audio_dts = pos 0;
    last_video_dts = pos 0;
    nonstrict = false;
    written = [];
  };
  out = blank_counts;
}

-- The DTS that is -1 is in `fresh_lines`, and `none` is AV_PIX_FMT_NONE.
abbrev pub new_thread : Thread
new_thread = record {
  handle = record {
    initialized = false;
    nb_outputs = 0;
    ictx = blank_input;
    is_mpegts = false;
    has_pb = false;
    last_format = none;
  };
  lines = fresh_lines;
  outputs = replicate max_outputs blank_output;
}

-- NULL if there is no memory.
unfoldable pub transcode_new : Bool → Option Thread
transcode_new allocs = if allocs then some new_thread else none

abbrev is_there : Option ℕ → Bool
is_there none = false
is_there (some n) = true

-- An output at the end of a segment: the signature filter is sent the end and freed.
unfoldable pub shut_output : OutputCtx → OutputCtx
shut_output o =
    close_output
      (if is_there o.sfilters && o.sf.active then record o { sf = free_filter o.sf } else o)

-- The first nb_outputs outputs are in use.
abbrev pub on_used : Handle → (List OutputCtx → List OutputCtx) → List OutputCtx → List OutputCtx
on_used h f os = f (take h.nb_outputs os) ++ drop h.nb_outputs os

-- Both halves of transcode_shutdown: Session has that of the input.
unfoldable pub transcode_shutdown : Thread → Ret → Ret × Thread
transcode_shutdown t ret =
    let (ret', h) = Session.transcode_shutdown t.handle ret in
    (ret', record t { handle = h; outputs = on_used h (map shut_output) t.outputs })

-- What is left when the handle is freed. The trailers that are written before change nothing of it.
unfoldable pub transcode_stop : Thread → Thread
transcode_stop t = record t {
  handle = record t.handle { ictx = free_input t.handle.ictx; has_pb = false };
  outputs = map free_output t.outputs;
}

-- The outputs that lpms_transcode_stop writes a trailer to: those of a copy that still have a muxer.
abbrev is_muxing : OutputCtx → Bool
is_muxing o = elim o.oc [ none ↦ false | some ss ↦ true ]

unfoldable pub late_trailers : Thread → List Bool
late_trailers t =
    map (λ (o : OutputCtx). (free_input t.handle.ictx).transmuxing && is_muxing o) t.outputs

unfoldable pub transcode_discontinuity : Thread → Thread
transcode_discontinuity t = record t { lines = mark_discontinuity t.lines }

-- lpms_transcode_reopen_demux: the file is open exactly if that succeeds.
unfoldable pub transcode_reopen_demux : InputParams → Answers → Bool → Thread → Ret × Thread
transcode_reopen_demux p a mpegts t =
    let (ret, c) = reopen_demux p a t.handle.ictx in
    (
      ret,
      record t {
        handle = record t.handle { ictx = c; has_pb = not (failed ret); is_mpegts = mpegts };
      },
    )
