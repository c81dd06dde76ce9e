-- ===== src/Mpsc/Race/Stale.antt =====
-- The compare-and-swap of `nos_shm_mpsc_enqueue` looks at the tail alone: it does not tell whether
-- the head still is where the check before it found it.
use gemini_nos.Base.{ℕ, ◌+◌, ◌%◌, ◌≡◌, ap, ◌∙◌, arith, some, none, [], length}
use gemini_nos.Ring.{used, length-contents, contents_empty}
use gemini_nos.Mpsc.{MpscQueue, queue_size, reserve}
use gemini_nos.Mpsc.Fifo.{InRange, offsets_of}
use gemini_nos.Mpsc.Race.{load_tail, swap_tail}

-- With the swap right after the check, the two are the step that takes a slot.
pub reserve-eq-swap :
    (q : MpscQueue) (loaded : ℕ)
    → load_tail q ≡ some loaded
    → (q' : MpscQueue) × (swap_tail q loaded ≡ some q') × (reserve q ≡ some (loaded, q'))
unfolding load_tail swap_tail reserve
reserve-eq-swap q loaded e =
    (record q { tail = (loaded + 1) % queue_size }, ground (arith, e), ground (arith, e))

-- The check found room for one more offset behind the tail. When the swap comes, the tail has gone
-- once around the array to the same place, and the queue is full (4095 offsets). Then the swap
-- succeeds all the same, and leaves a queue that counts as empty: the 4095 offsets are out of
-- reach.
pub swap-loses_all :
    (early late : MpscQueue)
    → InRange late
    → load_tail early ≡ some late.tail
    → length (offsets_of late) ≡ 4095
    → (q : MpscQueue) × (load_tail late ≡ none)
      × (swap_tail late late.tail ≡ some q)
      × (offsets_of q ≡ [])
unfolding load_tail swap_tail used
swap-loses_all early late v _ full =
    let n = length-contents queue_size late.offsets late.head late.tail in
    let meets : (late.tail + 1) % queue_size ≡ late.head =
      ground (arith, n, full, v.head_in, v.tail_in) in
    (
      record late { tail = (late.tail + 1) % queue_size },
      ground (arith, meets),
      ground arith,
      ap (λ t. offsets_of (record late { tail = t })) meets
          ∙ contents_empty queue_size late.offsets late.head,
    )
