-- ===== src/Thread/Samples.antt =====
-- A copy of a segment with one packet, for tests and witnesses.
use lpms.Common.{
  ◌≤◌, arith, ℕ, zero, suc, ◌≡◌, refl, Bool, pos, true, false, none, some, Option, [], ◌∷◌, length,
}
use lpms.Ret.{Ret, err, done, eof, is_eof}
use lpms.Media.{Packet, blank_packet}
use lpms.Codec.{Libav}
use lpms.Input.{InputParams}
use lpms.Input.Samples.{on_gpu, no_decoder}
use lpms.Filter.{copy}
use lpms.Encode.Samples.{writes}
use lpms.Outlet.Samples.{answers, input, output}
use lpms.Transmux.{fresh_lines}
use lpms.Thread.Reads.{EndsAfter}
use lpms.ProcessOut.Samples.{call, gives_two}
use lpms.Queue.Samples.{list_fifo, empty_queue, cloned}
use lpms.Session.{Reopening}
use lpms.Thread.{Thread, new_thread}
use lpms.Thread.Init.{OutputParams}
use lpms.Thread.Loop.{World, RoundAnswers, Running}
use lpms.Thread.Transcode.{Outcome, returns, breaks, Request, RequestAnswers}
use lpms.Samples.{same_base, packet, frame}

abbrev demux : ℕ → Ret × Packet
demux zero = (done, packet 0 (pos 5) (pos 5))
demux (suc n) = (err eof, blank_packet)

abbrev lib : Libav
lib = record {
  send = λ calls dec pkt. done;
  receive = λ calls dec. (done, frame (pos 0));
  read = λ calls. demux (length calls);
  can_clone = λ calls. true;
}

abbrev pub world : World
world = record { lib = lib; ops = same_base; writer = writes }

abbrev pub copying : InputParams
copying = record on_gpu { transmuxing = true }

abbrev pub copies : OutputParams
copies = record {
  names = record { video_name = copy; audio_name = copy };
  has_vfilters = false;
  sfilters = none;
  fps = none;
  gop_time = pos 0;
  clip_from = pos 0;
  clip_to = pos 0;
  frames = 0;
  pixels = 0;
}

abbrev pub opens : Reopening
opens = record { answers = no_decoder; avio_ret = done; mpegts = false; format = 0 }

abbrev pub in_round : RoundAnswers
in_round = record {
  clones = cloned;
  opens = λ i. answers;
  serves = λ i. record { clones = true; out = gives_two; setting = call.setting };
  pool = none;
}

abbrev pub request : Request list_fifo
request = record {
  input = copying;
  params = copies ∷ [];
  decoded = record { frames = 0; pixels = 0 };
}

abbrev pub meets : RequestAnswers list_fifo
meets = record {
  first = opens;
  again = opens;
  reopens = λ i. answers;
  queue = empty_queue;
  transcoding = record {
    allocs = true;
    rounds = λ i. in_round;
    flushes = λ i. record {
      video = λ n. gives_two;
      audio = λ n. gives_two;
      video_setting = call.setting;
      audio_setting = call.setting;
      trailer_ret = done;
    };
  };
}

abbrev pub is_returned : Option Outcome → Bool
is_returned none = false
is_returned (some breaks) = false
is_returned (some (returns ret t)) = true

abbrev pub ret_of : Option Outcome → Ret
ret_of none = done
ret_of (some breaks) = done
ret_of (some (returns ret t)) = ret

abbrev pub thread_of : Option Outcome → Thread
thread_of none = new_thread
thread_of (some breaks) = new_thread
thread_of (some (returns ret t)) = t

pub returned_lem :
    (r : Option Outcome) → is_returned r ≡ true → r ≡ some (returns (ret_of r) (thread_of r))
returned_lem none e = absurd cc
returned_lem (some breaks) e = absurd cc
returned_lem (some (returns ret t)) e = refl

demux-ends : (n : ℕ) → 1 ≤ n → is_eof (demux n).0 ≡ true
demux-ends zero h = absurd omega arith
demux-ends (suc n) h = refl

pub world-EndsAfter : EndsAfter world.lib 1
world-EndsAfter = λ calls h. demux-ends (length calls) h

-- An output that encodes both streams, and is opened for the first packet.
abbrev pub waiting : Running list_fifo
waiting = record {
  ictx = input;
  lines = fresh_lines;
  outputs = output ∷ [];
  decoded = record { frames = 0; pixels = 0 };
  frame_queue = empty_queue;
  outputs_ready = false;
  hit_eof = false;
}
