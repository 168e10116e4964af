-- ===== src/Queue/Tests.antt =====
-- Tests and witnesses for the queue, over a FIFO that is a list.
use lpms.Common.{◌≡◌, refl, arith, true, false, none, some, List, [], ◌∷◌}
use lpms.Ret.{err, done, packet_only}
use lpms.Queue.{
  CloneAnswers, queue_write, queue_read, queue_free, Op, put, get, run, add_pkt, add_frame,
  write_item, read_fifo,
}
use lpms.Queue.Ownership.{run-queue_free}
use lpms.Queue.Refine.{list_run, run-list_run}
use lpms.Queue.Samples.{list_fifo, empty_queue, cloned}
use lpms.Samples.{packet, frame}
use lpms.Common.{pos}

abbrev no_frame_clone : CloneAnswers
no_frame_clone = record { pkt_cloned = true; frame_cloned = false }

abbrev ops : List Op
ops =
    put (some (packet 0 (pos 1) (pos 1))) none (err packet_only) cloned
    ∷ put (some (packet 1 (pos 2) (pos 2))) (some (frame (pos 2))) done no_frame_clone
    ∷ put (some (packet 1 (pos 2) (pos 2))) (some (frame (pos 2))) done cloned
    ∷ get
    ∷ []

-- A write of the four fails, for want of memory for a clone, and leaves nothing behind.
replies : (run list_fifo empty_queue ops).1.live ≡ 2
unfolding run queue_write queue_read add_pkt add_frame write_item read_fifo
replies = refl

run-queue_free_example : queue_free list_fifo 3 (run list_fifo empty_queue ops).1 ≡ some 0
unfolding run queue_write queue_read add_pkt add_frame write_item read_fifo
run-queue_free_example = run-queue_free list_fifo empty_queue ops 3 (λ f x. refl) refl (omega arith)

run-list_run_example : (run list_fifo empty_queue ops).0 ≡ list_run [] ops
run-list_run_example = run-list_run list_fifo empty_queue ops (λ e. cc) (λ f x. refl)
