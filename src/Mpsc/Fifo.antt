-- ===== src/Mpsc/Fifo.antt =====
-- The receive queue against a list of offsets, oldest first.
use gemini_nos.Base.{
  ℕ, ◌+◌, ◌%◌, ◌<◌, ◌≡◌, ◌≢◌, ◌⊎◌, ◌↔◌, ℕ_discrete, inl, inr, sym, ap, ◌∙◌, arith, false, some,
  ◌==◌, update, nos_ok, nos_err_busy, List, [], ◌∷◌, ◌++◌, length, ==_iff,
}
use gemini_nos.Ring.{
  wrap, used, contents, contents-push, contents-pop, contents_empty, length-contents,
  contents-update_outside,
}
use gemini_nos.Mpsc.{MpscQueue, queue_size, enqueue, reserve, publish, empty, spins, taken, dequeue}

-- Both indices are in the array.
pub record InRange (q : MpscQueue) : Type 0 where
  pub head_in : q.head < queue_size
  pub tail_in : q.tail < queue_size

abbrev pub offsets_of : MpscQueue → List ℕ
offsets_of q = contents queue_size q.offsets q.head q.tail

step-eq-wrap : (i : ℕ) → i < queue_size → (i + 1) % queue_size ≡ wrap queue_size (i + 1)
step-eq-wrap i h = ground arith

full-eq :
    (h t : ℕ)
    → h < queue_size
    → t < queue_size
    → ((t + 1) % queue_size ≡ h) ↔ (used queue_size h t ≡ 4095)
unfolding used
full-eq h t p q = ((λ e. ground arith), λ e. ground arith)

abbrev entered : MpscQueue → ℕ → MpscQueue
entered q offset = record q {
  offsets = update q.offsets q.tail offset;
  tail = (q.tail + 1) % queue_size;
}

module _ (q : MpscQueue) (offset : ℕ) (v : InRange q) (proper : offset ≢ 0) where
  nonzero : (offset == 0) ≡ false
  nonzero = ground arith

  not_full : (q.tail + 1) % queue_size ≢ q.head → ((q.tail + 1) % queue_size == q.head) ≡ false
  not_full ne = ground arith

  -- On a queue whose indices are in range: 4095 offsets refuse another, which is not 0, and the
  -- queue stays as it is; any other queue takes it behind the offsets that it holds.
  pub enqueue_lem :
      (length (offsets_of q) ≡ 4095 → enqueue (some q) offset ≡ (nos_err_busy, some q))
      × (length (offsets_of q) ≢ 4095
          → (q' : MpscQueue) × (enqueue (some q) offset ≡ (nos_ok, some q'))
            × InRange q'
            × (offsets_of q' ≡ offsets_of q ++ offset ∷ []))
  unfolding enqueue reserve publish
  enqueue_lem = (
    λ full. rw (nonzero, (==_iff _ _).1 (meets.1 (sym counted ∙ full)), enqueue),
    λ room.
        let ne : (q.tail + 1) % queue_size ≢ q.head = λ e. room (counted ∙ meets.0 e) in
        (
          entered q offset,
          rw (nonzero, not_full ne, enqueue),
          record { head_in = v.head_in; tail_in = omega arith },
          rw (step-eq-wrap q.tail v.tail_in) (
              contents-push queue_size q.offsets v.head_in v.tail_in offset
                (λ e. ne (step-eq-wrap q.tail v.tail_in ∙ e))),
        ),
  )
    where
      counted : length (offsets_of q) ≡ used queue_size q.head q.tail
      counted = length-contents queue_size q.offsets q.head q.tail

      meets : ((q.tail + 1) % queue_size ≡ q.head) ↔ (used queue_size q.head q.tail ≡ 4095)
      meets = full-eq q.head q.tail v.head_in v.tail_in

module _ (q : MpscQueue) (v : InRange q) where
  -- On a queue whose indices are in range, a consumer finds an empty queue empty. Of any other it
  -- takes the oldest offset and leaves the others in their order, or, while the producer of the
  -- oldest has still to write it, spins.
  pub dequeue_lem :
      ((offsets_of q ≡ []) × (dequeue q ≡ empty))
      ⊎ (((q.offsets q.head ≡ 0) × (dequeue q ≡ spins))
          ⊎ ((q' : MpscQueue) × (offsets_of q ≡ q.offsets q.head ∷ offsets_of q')
              × (dequeue q ≡ taken (q.offsets q.head) q')
              × InRange q'))
  unfolding dequeue
  dequeue_lem = elim (ℕ_discrete q.head q.tail) [
    | yes e ↦
        inl (rw e (contents_empty queue_size q.offsets q.tail), rw ((==_iff _ _).1 e, dequeue))
    | no ne ↦ elim (ℕ_discrete (q.offsets q.head) 0) [
      | yes pending ↦ inr (inl (pending, rw (apart ne, (==_iff _ _).1 pending, dequeue)))
      | no there ↦ inr (
          inr (
            record q { offsets = update q.offsets q.head 0; head = (q.head + 1) % queue_size },
            rw (step-eq-wrap q.head v.head_in) (
                contents-pop queue_size q.offsets v.head_in v.tail_in ne
                ∙ ap (◌∷◌ (q.offsets q.head))
                    (sym (contents-update_outside queue_size q.offsets v.head_in v.tail_in 0 ne))),
            rw (apart ne, written there, dequeue),
            record { head_in = omega arith; tail_in = v.tail_in },
          ))
    ]
  ]
    where
      apart : q.head ≢ q.tail → (q.head == q.tail) ≡ false
      apart ne = ground arith

      written : q.offsets q.head ≢ 0 → (q.offsets q.head == 0) ≡ false
      written ne = ground arith
