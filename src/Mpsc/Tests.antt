-- ===== src/Mpsc/Tests.antt =====
-- A receive queue with one offset in it, and the steps of two producers.
use gemini_nos.Base.{
  Bool, nos_ok, true, nos_err, ℕ, ◌≡◌, ◌≢◌, ◌≤◌, ◌⊎◌, ◌↔◌, refl, arith, update, none, List, some,
  [], ◌∷◌, ◌++◌, length, ◌==◌, if◌then◌else◌,
}
use gemini_nos.Ring.{used, length-contents}
use gemini_nos.Mpsc.Attach.{Attachment, unmapped, mapped, get_local_queue, shm_magic, shm_init}
use gemini_nos.Mpsc.Attach.Found.{IsSeen, IsPlaced, Refusal, shm_init_lem}
use gemini_nos.Mpsc.Race.{Race, Reach, start, later, take_slot, write, load_tail, swap_tail}
use gemini_nos.Mpsc.Race.Order.{received_in_order, spin_ends}
use gemini_nos.Mpsc.Race.Stale.{swap-loses_all}
use gemini_nos.Mpsc.{Nodes, MpscQueue, reserve, publish, queue_size, dequeue, empty, spins, taken}
use gemini_nos.Mpsc.Fifo.{InRange, offsets_of, dequeue_lem}

abbrev waiting : MpscQueue
waiting = record { head = 4095; tail = 0; offsets = λ i. if i == 4095 then 262864 else 0 }

waiting-InRange : InRange waiting
waiting-InRange = record { head_in = omega arith; tail_in = omega arith }

dequeue_example :
    ((offsets_of waiting ≡ []) × (dequeue waiting ≡ empty))
    ⊎ (((waiting.offsets 4095 ≡ 0) × (dequeue waiting ≡ spins))
        ⊎ ((q' : MpscQueue) × (offsets_of waiting ≡ waiting.offsets 4095 ∷ offsets_of q')
            × (dequeue waiting ≡ taken (waiting.offsets 4095) q')
            × InRange q'))
dequeue_example = dequeue_lem waiting waiting-InRange

-- Two producers take the first two slots, and the second is the first to write.
one_slot : Race
one_slot = record {
  queue = record { head = 0; tail = 1; offsets = λ _. 0 };
  pending = update (λ _. 0) 0 262864;
  ordered = 262864 ∷ [];
  received = [];
}

abbrev two_slots : Race
two_slots = record {
  queue = record { head = 0; tail = 2; offsets = λ _. 0 };
  pending = update (update (λ _. 0) 0 262864) 1 267032;
  ordered = 262864 ∷ 267032 ∷ [];
  received = [];
}

two_slots-Reach : Reach two_slots
unfolding reserve
two_slots-Reach =
    later
      (later start
        (take_slot 262864 0 (record { head = 0; tail = 1; offsets = λ _. 0 }) (omega arith) refl))
      (take_slot 267032 1 (record { head = 0; tail = 2; offsets = λ _. 0 }) (omega arith) refl)

second_first : Race
second_first = record two_slots {
  queue = publish two_slots.queue 1 267032;
  pending = update two_slots.pending 1 0;
}

second_first-Reach : Reach second_first
unfolding second_first
second_first-Reach = later two_slots-Reach (write 1 (omega arith))

received_in_order_example :
    (rest : List ℕ) × (second_first.ordered ≡ second_first.received ++ rest)
    × (length rest ≤ 4095)
    × ((reserve second_first.queue ≡ none) ↔ (length rest ≡ 4095))
received_in_order_example = received_in_order second_first-Reach

spinning : dequeue second_first.queue ≡ spins
unfolding second_first dequeue publish
spinning = refl

spin_ends_example :
    (second_first.pending second_first.queue.head ≢ 0)
    × (q : MpscQueue) × (dequeue (
          publish second_first.queue second_first.queue.head
            (second_first.pending second_first.queue.head))
        ≡ taken (second_first.pending second_first.queue.head) q)
spin_ends_example = spin_ends second_first-Reach spinning

abbrev seen : MpscQueue
seen = record { head = 0; tail = 5; offsets = λ _. 262864 }

abbrev around : MpscQueue
around = record { head = 6; tail = 5; offsets = λ _. 262864 }

swap-loses_all_example :
    (q : MpscQueue) × (load_tail around ≡ none)
    × (swap_tail around around.tail ≡ some q)
    × (offsets_of q ≡ [])
unfolding load_tail used
swap-loses_all_example =
    swap-loses_all seen around (record { head_in = omega arith; tail_in = omega arith }) refl
      (length-contents queue_size around.offsets 6 5)

-- A registry with one node, called 1; node 2 attaches after two readings.
abbrev one_node : Nodes
one_node = record {
  node_name = λ _. 1;
  in_use = λ i. i == 0;
  rx_queue = λ _. record { head = 0; tail = 0; offsets = λ _. 0 };
}

-- A process that has not attached.
abbrev apart : Attachment
apart = record { base = unmapped; header_set = Bool.false; local_queue_idx = none }

shm_init_example :
    let reading = λ (k : ℕ). if k == 2 then shm_magic else 0 in
    let out = shm_init true true reading 2 apart one_node in
    ((a' : Attachment) × (out ≡ (nos_err, a', one_node))
      × (get_local_queue a' ≡ none)
      × Refusal true true reading 2 one_node apart a')
    ⊎ ((i : ℕ) × (r' : Nodes) × (out
          ≡ (nos_ok, record { base = mapped; header_set = true; local_queue_idx = some i }, r'))
        × IsSeen reading 0 51
        × IsPlaced one_node 2 i r')
shm_init_example =
    shm_init_lem true true (λ k. if k == 2 then shm_magic else 0) 2 one_node apart (omega arith)
      refl
