-- ===== src/Queue/Samples.antt =====
-- A FIFO that is a list, for tests and witnesses.
use lpms.Common.{◌≡◌, refl, true, false, none, some, List, [], ◌∷◌, ◌++◌}
use lpms.Ret.{Ret, err, done, einval, enomem, failed}
use lpms.Queue.{Item, FifoApi, CloneAnswers, Queue}

abbrev pub no_item : Item
no_item = record { pkt = none; frame = none; decoder_return = done }

abbrev pub read_list : List Item → Ret × Item × List Item
read_list [] = (err einval, no_item, [])
read_list (x ∷ l) = (done, x, l)

pub read_list-empty : (l : List Item) → l ≡ [] → failed (read_list l).0 ≡ true
read_list-empty l e = rw e refl

pub read_list-cons :
    (l : List Item) (x : Item) (xs : List Item)
    → l ≡ x ∷ xs
    → (failed (read_list l).0 ≡ false) × ((read_list l).1 ≡ x) × ((read_list l).2 ≡ xs)
read_list-cons l x xs e = rw e (refl, refl, refl)

pub never_full : (l : List Item) (x : Item) → failed done ≡ true → l ++ x ∷ [] ≡ l
never_full l x h = cc

pub always_full : (l : List Item) (x : Item) → failed (err enomem) ≡ false → l ≡ l ++ x ∷ []
always_full l x h = cc

-- Memory never ends.
abbrev pub list_fifo : FifoApi
list_fifo = record {
  Fifo = List Item;
  items = λ l. l;
  write = λ l x. (done, l ++ x ∷ []);
  read = read_list;
  write_lem = λ l x h. refl;
  write_full = never_full;
  read_empty = read_list-empty;
  read_lem = read_list-cons;
}

-- There is no memory at all.
abbrev pub full_fifo : FifoApi
full_fifo = record list_fifo {
  write = λ l x. (err enomem, l);
  write_lem = always_full;
  write_full = λ l x h. refl;
}

abbrev pub empty_queue : Queue list_fifo
empty_queue = record { fifo = some []; live = 0 }

abbrev pub cloned : CloneAnswers
cloned = record { pkt_cloned = true; frame_cloned = true }
