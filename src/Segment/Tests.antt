-- ===== src/Segment/Tests.antt =====
-- Tests and witnesses for the loop over a segment.
use lpms.Common.{ℕ, zero, suc, ◌≡◌, refl, pos, negsuc, true, false, none, some, [], ◌∷◌, length}
use lpms.Ret.{Ret, err, done, eof}
use lpms.Media.{Packet, blank_packet}
use lpms.Queue.{Item, queue_write, add_pkt, add_frame, write_item, queue_read, read_fifo, hand_out}
use lpms.Queue.Samples.{list_fifo, empty_queue, cloned}
use lpms.Codec.{Libav, demux_in}
use lpms.Decoder.{process_in, next_packet, decode_in, flush_in, flush_audio}
use lpms.Decoder.Samples.{ctx}
use lpms.Samples.{same_base, packet, frame}
use lpms.Segment.{
  OutputState, LoopState, from_decoder, from_queue, route, open_or_pass, pass_on, hold,
  open_outputs, wants_open, item_of, output_frame, finishes, goes, crashes, round, rounds, fetch,
}
use lpms.Segment.Fetch.{held}
use lpms.Segment.Drain.{rounds-drains}
use lpms.Segment.Stray.{round-goes_past_end, round-derefs_null}

-- Audio, video, audio.
abbrev demux : ℕ → Ret × Packet
demux zero = (done, packet 1 (pos 0) (pos 0))
demux (suc zero) = (done, packet 0 (pos 1) (pos 1))
demux (suc (suc zero)) = (done, packet 1 (pos 2) (pos 2))
demux (suc (suc (suc n))) = (err eof, blank_packet)

abbrev lib : Libav
lib = record {
  send = λ calls dec pkt. done;
  receive = λ calls dec. (done, frame (pos 0));
  read = λ calls. demux (length calls);
  can_clone = λ calls. true;
}

abbrev output : OutputState
output = record { initialized = false; dv = false; open_ret = done }

-- A segment of which one output copies both streams.
abbrev start : LoopState list_fifo
start = record {
  ictx = record ctx { has_vc = false; has_ac = false };
  frame_queue = empty_queue;
  outputs = output ∷ [];
  outputs_ready = false;
  hit_eof = false;
}

abbrev item : Packet → Item
item p = record { pkt = some p; frame = none; decoder_return = done }

abbrev end : Item
end = record { pkt = none; frame = none; decoder_return = err eof }

-- The audio packet waits for the first one of the video, and neither is overtaken.
two_held :
    held list_fifo (rounds list_fifo 2 lib same_base cloned start).next
    ≡ item (packet 1 (pos 0) (pos 0)) ∷ item (packet 0 (pos 1) (pos 1)) ∷ []
unfolding rounds round fetch from_decoder from_queue route open_or_pass pass_on hold open_outputs
    wants_open item_of output_frame process_in next_packet demux_in decode_in queue_write add_pkt
    add_frame write_item queue_read read_fifo hand_out flush_in flush_audio
two_held = refl

all_taken :
    (rounds list_fifo 5 lib same_base cloned start).taken
    ≡ item (packet 1 (pos 0) (pos 0))
      ∷ item (packet 0 (pos 1) (pos 1))
      ∷ item (packet 1 (pos 2) (pos 2))
      ∷ []
unfolding rounds round fetch from_decoder from_queue route open_or_pass pass_on hold open_outputs
    wants_open item_of output_frame process_in next_packet demux_in decode_in queue_write add_pkt
    add_frame write_item queue_read read_fifo hand_out flush_in flush_audio
all_taken = refl

-- All outputs are open; two packets and the end of the input are held.
abbrev ending : LoopState list_fifo
ending = record start {
  frame_queue = record {
    fifo = some (item (packet 1 (pos 0) (pos 0)) ∷ item (packet 0 (pos 1) (pos 1)) ∷ end ∷ []);
    live = 2;
  };
  outputs = record output { initialized = true } ∷ [];
  outputs_ready = true;
  hit_eof = true;
}

rounds-drains_example :
    let r = rounds list_fifo 3 lib same_base cloned ending in
    (r.fate ≡ finishes)
    × (r.taken ≡ item (packet 1 (pos 0) (pos 0)) ∷ item (packet 0 (pos 1) (pos 1)) ∷ end ∷ [])
    × (r.produced ≡ [])
rounds-drains_example =
    rounds-drains list_fifo (λ f x. refl) lib same_base cloned
      (item (packet 1 (pos 0) (pos 0)) ∷ item (packet 0 (pos 1) (pos 1)) ∷ []) end ending (λ e. cc)
      refl refl ((refl, refl), ((refl, refl), tt)) refl

-- The second segment of a copy, which has no packets.
abbrev lib_at_end : Libav
lib_at_end = record lib { read = λ calls. (err eof, blank_packet) }

abbrev second_segment : LoopState list_fifo
second_segment = record start { outputs = record output { initialized = true } ∷ [] }

goes_past_end :
    ((round list_fifo lib_at_end same_base cloned second_segment).fate ≡ goes)
    × ((fetch list_fifo lib_at_end same_base second_segment).turn.stream_index ≡ negsuc 0)
goes_past_end =
    round-goes_past_end list_fifo lib_at_end same_base cloned second_segment refl refl refl refl
      refl refl refl

-- A copy with the flag of transmuxing, whose first packet is audio.
abbrev audio_first : LoopState list_fifo
audio_first = record start { ictx = record start.ictx { transmuxing = true } }

round-derefs_null_example : (round list_fifo lib same_base cloned audio_first).fate ≡ crashes
round-derefs_null_example =
    round-derefs_null list_fifo lib same_base cloned audio_first output [] refl refl refl refl refl
      refl refl refl refl refl refl refl
