-- ===== src/Segment/InOrder.antt =====
-- No result of the input is lost, doubled or overtaken on its way through the queue.
use lpms.Common.{◌≡◌, Bool, true, false, List, ◌++◌, ◌⊎◌}
use lpms.Queue.{Item, FifoApi}
use lpms.Queue.Ownership.{HasMemory}
use lpms.Segment.{Fate, stops, crashes, Round}
use lpms.Segment.Fetch.{held, IsWaiting}

abbrev pub is_stop : Fate → Bool
is_stop (stops ret) = true
is_stop crashes = true
is_stop _ = false

module _ (api : FifoApi) (room : HasMemory api) where
  -- A round stops or crashes, or keeps all that was held and produced in order.
  abbrev pub KeepsOrder : List Item → Round api → Type 0
  KeepsOrder before r =
      (is_stop r.fate ≡ true)
      ⊎ ((before ++ r.produced ≡ r.taken ++ held api r.next) × IsWaiting api r.next)
