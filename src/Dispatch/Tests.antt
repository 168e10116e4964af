-- ===== src/Dispatch/Tests.antt =====
-- Tests and witnesses for the dispatch to the outputs.
use lpms.Common.{ℕ, pos, ◌≡◌, refl, true, false, none, some, [], ◌∷◌, inr}
use lpms.Ret.{done}
use lpms.Media.{cuda}
use lpms.Encode.Samples.{opened, writes}
use lpms.Outlet.Open.{
  open_audio_encoder, open_audio_output, open_video_encoder, add_video, encode_streams, add_streams,
  write_header, finish_open, try_open, open_output,
}
use lpms.Outlet.{OutputCtx, add_video_stream, add_audio_stream, set_times, set_audio_times}
use lpms.Filter.{needs_decoder, init_video_filters, init_audio_filters, filtergraph_parser}
use lpms.Outlet.Samples.{answers, input, output, encoder}
use lpms.ProcessOut.{process_out}
use lpms.ProcessOut.Samples.{call, gives_two}
use lpms.Dispatch.{set_flags, route_to, flush_loop, Item, ServeAnswers, serve_all, stops}
use lpms.Dispatch.Each.{Parted, alone, serve_all-Parted}
use lpms.Feed.Samples.{picture}
use lpms.Dispatch.Streams.{LeadsTo, kind_at, route_to-LeadsTo}
use lpms.Dispatch.Flush.{flush_loop_once}
use lpms.Samples.{same_base, audio_stream, packet, video_stream}

-- Without the video the audio is stream 0.
audio_first :
    route_to input (record opened { dv = true; oc = some (audio_stream ∷ []) }) 1 audio_stream
    ≡ some (record { ost = audio_stream; encoder = some (record encoder { id = 2 }) })
unfolding route_to
audio_first = refl

opens : (open_output same_base answers input (set_flags input output)).0 ≡ done
unfolding open_output try_open finish_open open_video_encoder add_streams encode_streams add_video
    add_video_stream add_audio_stream open_audio_output open_audio_encoder write_header set_times
    set_audio_times init_video_filters init_audio_filters filtergraph_parser needs_decoder set_flags
opens = refl

route_to-LeadsTo_example :
    LeadsTo (kind_at input 1 audio_stream) (
      route_to input
        (open_output same_base answers input (set_flags input output)).1
        1
        audio_stream)
route_to-LeadsTo_example =
    route_to-LeadsTo same_base answers input output 1 audio_stream (inr refl) (inr refl) opens

abbrev on_gpu : OutputCtx
on_gpu = record opened { hw_type = cuda }

flush_loop_once_example :
    flush_loop 3 (λ i. gives_two) call input on_gpu
    ≡ some (process_out call gives_two input none on_gpu)
flush_loop_once_example = flush_loop_once 2 (λ i. gives_two) call input on_gpu refl refl refl

abbrev item : Item
item = record {
  stream_index = 0;
  ist = video_stream;
  packet = packet 0 (pos 90) (pos 90);
  picture = picture;
  has_frame = true;
}

abbrev serving : ℕ → ServeAnswers
serving i = record { clones = true; out = gives_two; setting = call.setting }

serve_all-Parted_example :
    let (ended, os') = serve_all same_base writes serving input item (opened ∷ on_gpu ∷ []) in
    Parted same_base writes input item serving (opened ∷ on_gpu ∷ []) os'
    × (stops ended ≡ false → os' ≡ alone same_base writes input item serving (opened ∷ on_gpu ∷ []))
serve_all-Parted_example =
    serve_all-Parted same_base writes input item serving (opened ∷ on_gpu ∷ [])
