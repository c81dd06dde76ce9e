-- ===== src/Mpsc.antt =====
-- The receive queue of a node in the shared segment (src/infra/nos_shm.c): a circular array of
-- offsets with many producers and one consumer. A slot that holds no offset holds 0. A producer
-- first takes a slot by moving the tail, and then writes its offset there.
pub mod Fifo
pub mod Race
pub mod Attach
mod Tests
use gemini_nos.Base.{
  strncpy, ℕ, ◌+◌, ◌%◌, Bool, ◌&&◌, ◌||◌, not, Option, none, some, ◌==◌, if◌then◌else◌, update,
  Status, nos_ok, nos_err, nos_err_busy,
}
use gemini_nos.Base.Scan.{scan}

abbrev pub queue_size : ℕ
queue_size = 4096

-- `nos_shm_mpsc_queue_t`
pub record MpscQueue : Type 0 where
  pub head : ℕ
  pub tail : ℕ
  pub offsets : ℕ → ℕ

-- The loop of `nos_shm_mpsc_enqueue`, as the step of the swap that succeeds: the slot that it takes.
-- `none` is a full queue.
pub reserve : MpscQueue → Option (ℕ × MpscQueue)
reserve q =
    let next_tail = (q.tail + 1) % queue_size in
    if next_tail == q.head then none else some (q.tail, record q { tail = next_tail })

-- The store that follows it.
pub publish : MpscQueue → ℕ → ℕ → MpscQueue
publish q slot offset = record q { offsets = update q.offsets slot offset }

-- `nos_shm_mpsc_enqueue` with no other step between the two; `none` is a queue that is `NULL`.
pub enqueue : Option MpscQueue → ℕ → Status × Option MpscQueue
unfolding reserve publish
enqueue none offset = (nos_err, none)
enqueue (some q) offset = if offset == 0 then (nos_err, some q) else elim (reserve q) [
  | none ↦ (nos_err_busy, some q)
  | some (slot, q') ↦ (nos_ok, some (publish q' slot offset))
]

-- What `nos_shm_mpsc_dequeue` comes to: nothing there, a producer still to write its slot, in which
-- case it spins, or an offset.
pub data Dequeued : Type 0 where
  empty : Dequeued
  spins : Dequeued
  taken : ℕ → MpscQueue → Dequeued

-- `nos_shm_mpsc_dequeue`
pub dequeue : MpscQueue → Dequeued
dequeue q =
    if q.head == q.tail
    then empty
    else if q.offsets q.head == 0
    then spins
    else taken (q.offsets q.head)
        (record q { offsets = update q.offsets q.head 0; head = (q.head + 1) % queue_size })

-- The registry of nodes in `nos_shm_header_t`, with the queue of each. A node's name is
-- a C string.
pub record Nodes : Type 0 where
  pub node_name : ℕ → ℕ
  pub in_use : ℕ → Bool
  pub rx_queue : ℕ → MpscQueue

abbrev pub max_nodes : ℕ
max_nodes = 16

-- The registration loop of `nos_shm_init`: the first slot that is free, or bears the node's name.
-- `none` is a registry that is full. A slot keeps 31 bytes of the name, and whole names are compared.
pub register_node : Nodes → ℕ → Option (ℕ × Nodes)
register_node r name = elim (scan (λ i. not (r.in_use i) || (r.node_name i == name)) 0 max_nodes) [
  | none ↦ none
  | some i ↦
      if r.in_use i
      then some (i, r)
      else some (
        i,
        record {
          in_use = update r.in_use i Bool.true;
          node_name = update r.node_name i (strncpy 31 name);
          rx_queue = update r.rx_queue i (record (r.rx_queue i) { head = 0; tail = 0 });
        },
      )
]

-- `nos_shm_get_remote_queue` of a process that has the segment mapped, as the index of the queue
pub get_remote_queue : Nodes → ℕ → Option ℕ
get_remote_queue r name = scan (λ i. r.in_use i && (r.node_name i == name)) 0 max_nodes
