-- ===== src/Mpsc/Race.antt =====
-- The receive queue of a node with several producers and its consumer at work at once
-- (src/infra/nos_shm.c): a producer takes its slot in one step, the swap of `nos_shm_mpsc_enqueue`
-- that succeeds with the check before it, and writes the slot in another; in between, the others
-- and the consumer step as they like. The last part takes the swap apart from the check.
pub mod Invariant
pub mod Order
pub mod Stale
use gemini_nos.Base.{
  ℕ, ◌+◌, ◌%◌, ◌<◌, ◌≡◌, ◌≢◌, Option, none, some, ◌==◌, if◌then◌else◌, update, List, [], ◌∷◌, ◌++◌,
}
use gemini_nos.Mpsc.{MpscQueue, queue_size, reserve, publish, taken, dequeue}

-- The queue, and what is under way: `pending` is the offset that the producer of a slot is about
-- to write there, or 0. `ordered` are the offsets in the order in which their producers took the
-- slots, and `received` those that the consumer has taken, both the oldest first.
pub record Race : Type 0 where
  pub queue : MpscQueue
  pub pending : ℕ → ℕ
  pub ordered : List ℕ
  pub received : List ℕ

pub data Step (s : Race) : Race → Type 0 where
  take_slot :
      (offset slot : ℕ) (q : MpscQueue)
      → offset ≢ 0
      → reserve s.queue ≡ some (slot, q)
      → Step s (record s {
        queue = q;
        pending = update s.pending slot offset;
        ordered = s.ordered ++ offset ∷ [];
      })
  write :
      (slot : ℕ)
      → s.pending slot ≢ 0
      → Step s (record s {
        queue = publish s.queue slot (s.pending slot);
        pending = update s.pending slot 0;
      })
  receive :
      (offset : ℕ) (q : MpscQueue)
      → dequeue s.queue ≡ taken offset q
      → Step s (record s { queue = q; received = s.received ++ offset ∷ [] })

-- A queue as `nos_shm_init` leaves it, with any offsets in no slot.
abbrev pub initial : Race
initial = record {
  queue = record { head = 0; tail = 0; offsets = λ _. 0 };
  pending = λ _. 0;
  ordered = [];
  received = [];
}

pub data Reach : Race → Type 0 where
  start : Reach initial
  later : {s t : Race} → Reach s → Step s t → Reach t

-- The load of the tail and the check of `nos_shm_mpsc_enqueue`, and its compare-and-swap of a tail
-- loaded before.
unfoldable pub load_tail : MpscQueue → Option ℕ
load_tail q = if (q.tail + 1) % queue_size == q.head then none else some q.tail

pub swap_tail : MpscQueue → ℕ → Option MpscQueue
swap_tail q loaded =
    if q.tail == loaded then some (record q { tail = (loaded + 1) % queue_size }) else none
