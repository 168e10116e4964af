-- ===== src/Session/Tests.antt =====
-- Tests and witnesses for the start of a segment.
use lpms.Common.{◌≡◌, refl, true, false, none, [], ◌∷◌, ◌⊎◌}
use lpms.Ret.{err, done, eof, failed, is_zero, is_eof}
use lpms.Media.{no_hw}
use lpms.Input.{InputParams}
use lpms.Input.Samples.{on_gpu, no_decoder}
use lpms.Decoder.Samples.{ctx}
use lpms.Filter.{copy, codec, needs_decoder}
use lpms.Session.{Handle, Reopening, skip_decoder, transcode_shutdown, init_input, transcode_init}
use lpms.Session.Reopen.{IsReady, IsAtRest, transcode_init-Outcome}

abbrev on_cpu : InputParams
on_cpu = record on_gpu { hw_type = no_hw }

abbrev reopening : Reopening
reopening = record {
  answers = record no_decoder { vc_open_ret = done };
  avio_ret = done;
  mpegts = true;
  format = 0;
}

-- After a segment of mpegts.
abbrev used : Handle
used = record {
  initialized = true;
  nb_outputs = 1;
  ictx = ctx;
  is_mpegts = true;
  has_pb = true;
  last_format = none;
}

abbrev fresh : Handle
fresh = record used { initialized = false; nb_outputs = 0; has_pb = false }

-- After a segment of another format, of which the file for the next one is empty.
abbrev closed : Handle
closed = record used { ictx = record ctx { ic = none } }

abbrev at_end : Reopening
at_end = record reopening { answers = record no_decoder { open_ret = err eof } }

transcode_init-Outcome_example :
    let (ret, h) = transcode_init on_cpu reopening (transcode_shutdown used done).1 in
    ((is_zero ret ≡ true) × IsReady h)
    ⊎ (((failed ret ≡ true)
          ⊎ (is_eof (init_input on_cpu reopening (transcode_shutdown used done).1).0 ≡ true))
        × IsAtRest h)
transcode_init-Outcome_example = transcode_init-Outcome on_cpu reopening used done

skipped_only_if_all : skip_decoder 2 (copy ∷ codec 1 ∷ []) 0 false ≡ false
unfolding skip_decoder needs_decoder
skipped_only_if_all = refl
