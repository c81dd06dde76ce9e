-- ===== src/Timer/Calls.antt =====
-- `nos_timer_start` and the rounds of `process_timers` against the invariant of a thread's heap.
use gemini_nos.Base.{
  ℕ, zero, suc, ◌+◌, ◌*◌, ◌%◌, ◌^◌, ◌≤◌, ◌<◌, ◌≡◌, ◌≢◌, ◌⊎◌, refl, ap, arith, update, update_ind,
  update_ne, update_self, ltb, leb, Bool-cases, inl, inr, Bool, true, false, nos_ok, nos_err,
}
use gemini_nos.Timer.{
  TimerHeap, expire, parent, swap, smallest, up_loop, down_loop, heapify_up, insert, set_timer,
  timer_start,
}
use gemini_nos.Timer.Order.{IsHeap}
use gemini_nos.Timer.Up.{insert-IsHeap}
use gemini_nos.Timer.Down.{smallest-IsSmallest}

-- What holds of every timer in the heap.
abbrev pub AllNodes : (ℕ → Type 0) → ℕ → (ℕ → ℕ) → Type 0
AllNodes P size nodes = (i : ℕ) → i < size → P (nodes i)

-- Between calls the heap is in order and within its capacity, and holds only timers that run.
pub record TimersInv (h : TimerHeap) : Type 0 where
  pub order : IsHeap h
  pub fits : h.size ≤ h.capacity
  pub running : AllNodes (λ t. (h.timer t).is_running ≡ true) h.size h.nodes

swap-AllNodes :
    (P : ℕ → Type 0) (size : ℕ) (nodes : ℕ → ℕ) (i j : ℕ)
    → i < size
    → j < size
    → AllNodes P size nodes
    → AllNodes P size (swap nodes i j)
swap-AllNodes P size nodes i j hi hj v c hc =
    update_ind (update nodes i (nodes j)) (λ _ t. P t) j c (nodes i) (v i hi)
      (λ _. update_ind nodes (λ _ t. P t) i c (nodes j) (v j hj) (λ _. v c hc))

-- Sifting moves timers about, and brings in no other.
pub up_loop-AllNodes :
    (P : ℕ → Type 0) (exp : ℕ → ℕ) (size fuel : ℕ) (nodes : ℕ → ℕ) (i : ℕ)
    → i < size
    → AllNodes P size nodes
    → AllNodes P size (up_loop exp fuel nodes i)
unfolding up_loop
up_loop-AllNodes P exp size zero nodes i hi v = v
up_loop-AllNodes P exp size (suc fuel) nodes i hi v = elim (Bool-cases (ltb 0 i)) [
  | inr root ↦ rw root v
  | inl pos ↦ elim (Bool-cases (leb (exp (nodes (parent i))) (exp (nodes i)))) [
    | inl settled ↦ rw (pos, settled) v
    | inr rises ↦
        rw (pos, rises)
          (up_loop-AllNodes P exp size fuel (swap nodes i (parent i)) (parent i) (omega arith)
            (swap-AllNodes P size nodes i (parent i) hi (omega arith) v))
  ]
]

pub down_loop-AllNodes :
    (P : ℕ → Type 0) (exp : ℕ → ℕ) (size fuel : ℕ) (nodes : ℕ → ℕ) (i : ℕ)
    → AllNodes P size nodes
    → AllNodes P size (down_loop exp size fuel nodes i)
unfolding down_loop
down_loop-AllNodes P exp size zero nodes i v = v
down_loop-AllNodes P exp size (suc fuel) nodes i v = elim (Bool-cases (ltb (i * 2 + 1) size)) [
  | inr leaf ↦ rw leaf v
  | inl inner ↦
      let m = smallest exp size nodes i in
      let s = smallest-IsSmallest exp size nodes i (ground arith) in
      elim (Bool-cases (leb (exp (nodes i)) (exp (nodes m)))) [
        | inl settled ↦ rw (inner, settled) v
        | inr sinks ↦
            rw (inner, sinks)
              (down_loop-AllNodes P exp size fuel (swap nodes i m) m
                (swap-AllNodes P size nodes i m (ground arith) s.inside v))
      ]
]

-- The timer with the fields that `nos_timer_start` writes.
abbrev pub started : TimerHeap → ℕ → ℕ → ℕ → Bool → TimerHeap
started h now t interval periodic = set_timer h t (record (h.timer t) {
  interval_ms = interval;
  expire_at_ms = (now + interval) % 2 ^ 64;
  is_periodic = periodic;
  is_running = true;
  owned = true;
})

module _ (h : TimerHeap) (now t interval : ℕ) (periodic : Bool) (v : TimersInv h) where
  -- A timer that does not run is not in the heap.
  apart : (h.timer t).is_running ≡ false → (i : ℕ) → i < h.size → t ≢ h.nodes i
  apart idle i p e = ground (arith, ap (λ k. (h.timer k).is_running) e, v.running i p)

  started-IsHeap : (h.timer t).is_running ≡ false → IsHeap (started h now t interval periodic)
  started-IsHeap idle c p q = omega (arith, v.order c p q, same (parent c) (omega arith), same c q)
    where
      same :
          (i : ℕ)
          → i < h.size
          → expire (started h now t interval periodic) (h.nodes i) ≡ expire h (h.nodes i)
      same i p = ap (λ r. r.expire_at_ms) (update_ne h.timer _ (apart idle i p))

  started-running :
      AllNodes (λ k. ((started h now t interval periodic).timer k).is_running ≡ true) h.size h.nodes
  started-running i p =
      update_ind h.timer (λ k r. r.is_running ≡ true) t (h.nodes i) _ refl (λ _. v.running i p)

  -- On a thread with the invariant of the timers, `nos_timer_start` keeps it. It reports success or
  -- an error, and changes nothing with an error; with success the timer did not run before, runs
  -- now and expires after the interval, and the heap has grown by one.
  pub timer_start-TimersInv :
      let r = timer_start h now t interval periodic in
      TimersInv r.1
      × ((r.0 ≡ nos_ok) ⊎ ((r.0 ≡ nos_err) × (r.1 ≡ h)))
      × (r.0 ≡ nos_ok
          → ((h.timer t).is_running ≡ false)
            × (r.1.size ≡ h.size + 1)
            × ((r.1.timer t).is_running ≡ true)
            × ((r.1.timer t).expire_at_ms ≡ (now + interval) % 2 ^ 64))
  unfolding timer_start insert heapify_up
  timer_start-TimersInv = elim (Bool-cases (h.timer t).is_running) [
    | inl busy ↦ rw busy (v, inr (refl, refl), λ e. absurd (cc))
    | inr idle ↦ elim (Bool-cases (leb h.capacity h.size)) [
      | inl full ↦ rw (idle, full) (v, inr (refl, refl), λ e. absurd (cc))
      | inr room ↦
          rw (idle, room)
            (
              record {
                order = insert-IsHeap (started h now t interval periodic) t (started-IsHeap idle);
                fits = ground arith;
                running =
                    up_loop-AllNodes
                      (λ k. ((started h now t interval periodic).timer k).is_running ≡ true)
                      (expire (started h now t interval periodic)) (h.size + 1) (h.size + 1)
                      (update h.nodes h.size t) h.size (omega arith)
                      (λ i p.
                        update_ind h.nodes
                          (λ _ k. ((started h now t interval periodic).timer k).is_running ≡ true)
                          h.size i t (ap (λ r. r.is_running) (update_self h.timer t _))
                          (λ ne. started-running i (omega arith)));
              },
              inl refl,
              λ _. (
                refl,
                refl,
                ap (λ r. r.is_running) (update_self h.timer t _),
                ap (λ r. r.expire_at_ms) (update_self h.timer t _),
              ),
            )
    ]
  ]
