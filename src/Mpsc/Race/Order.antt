-- ===== src/Mpsc/Race/Order.antt =====
-- The consumer takes every offset once, in the order in which the producers took their slots.
use gemini_nos.Base.{
  ℕ, ◌+◌, ◌%◌, ◌≤◌, ◌<◌, ◌≡◌, ◌≢◌, ◌↔◌, arith, none, update, update_self, List, ◌++◌, length,
}
use gemini_nos.Ring.{used, length-contents, contents}
use gemini_nos.Mpsc.{MpscQueue, queue_size, reserve, publish, spins, taken, dequeue}
use gemini_nos.Mpsc.Race.{Race, Reach}
use gemini_nos.Mpsc.Race.Invariant.{promised, reach-Inv}

-- The check for room and the swap of a producer are one step here. In every state that the
-- producers and the consumer reach from an empty queue, whatever the order of their steps: the
-- offsets that were received are the first of those in the order in which their producers took the
-- slots, each once; the rest, in the queue or still to be written, are at most 4095, and a slot is
-- refused exactly while they are 4095.
pub received_in_order :
    {s : Race}
    → Reach s
    → (rest : List ℕ) × (s.ordered ≡ s.received ++ rest)
      × (length rest ≤ 4095)
      × ((reserve s.queue ≡ none) ↔ (length rest ≡ 4095))
unfolding reserve used
received_in_order {s} r =
    let v = reach-Inv r in
    let n = length-contents queue_size (promised s) s.queue.head s.queue.tail in
    (
      contents queue_size (promised s) s.queue.head s.queue.tail,
      v.content,
      ground (arith, n, v.range.head_in, v.range.tail_in),
      (
        λ e. ground (arith, n, e, v.range.head_in, v.range.tail_in),
        λ e. ground (arith, n, e, v.range.head_in, v.range.tail_in),
      ),
    )

-- The slot at the head, once it is written, is read.
dequeue-publish :
    (q : MpscQueue) (offset : ℕ)
    → q.head ≢ q.tail
    → offset ≢ 0
    → dequeue (publish q q.head offset)
      ≡ taken offset (record q {
        offsets = update (update q.offsets q.head offset) q.head 0;
        head = (q.head + 1) % queue_size;
      })
unfolding dequeue publish
dequeue-publish q offset apart proper =
    ground (arith, apart, proper, update_self q.offsets q.head offset)

-- The check for room and the swap of a producer are one step here. In every state that the
-- producers and the consumer reach from an empty queue: where the consumer spins, a producer has
-- taken the slot at the head and not written it yet, and after its write the consumer takes what
-- it wrote.
pub spin_ends :
    {s : Race}
    → Reach s
    → dequeue s.queue ≡ spins
    → (s.pending s.queue.head ≢ 0)
      × (q : MpscQueue) × (dequeue (publish s.queue s.queue.head (s.pending s.queue.head))
          ≡ taken (s.pending s.queue.head) q)
unfolding dequeue used
spin_ends {s} r e =
    let v = reach-Inv r in
    let apart : s.queue.head ≢ s.queue.tail = ground (arith, e) in
    let waits : s.queue.offsets s.queue.head ≡ 0 = ground (arith, e) in
    let held : 0 < promised s s.queue.head =
      v.held s.queue.head
        (v.range.head_in, ground (arith, apart, v.range.head_in, v.range.tail_in)) in
    let due : s.pending s.queue.head ≢ 0 = omega (arith, held, waits) in
    (due, _, dequeue-publish s.queue (s.pending s.queue.head) apart due)
