-- ===== src/Timer/Round.antt =====
-- What a round of `process_timers` does to the timers of a heap, with a callback that leaves them alone.
use gemini_nos.Base.{
  ℕ, ◌+◌, ◌<◌, ◌≡◌, sym, ap, ◌∙◌, subst, arith, Bool, true, false, not, ◌&&◌, update, update_self,
  leb, ◌==◌, if◌then◌else◌, Bool-cases, inl, inr,
}
use gemini_nos.Timer.{Timer, TimerHeap, expire, heapify_up, heapify_down, insert, remove_at, fire}
use gemini_nos.Timer.Calls.{TimersInv}
use gemini_nos.Timer.Tally.{bit, tally, remove_root-tally, insert-tally}
use gemini_nos.Timer.Firing.{
  copies, due_count, Sound, fired, landed, set_timer-TimersInv, due_count-set_timer,
  insert-TimersInv, remove_root-TimersInv, remove_at-timer, fire-quiet,
}

-- What a round does to a heap whose root is due.
pub record Round (now : ℕ) (h r : TimerHeap) : Type 0 where
  pub sound : Sound r
  pub timers : (k : ℕ) → r.timer k ≡ update h.timer (h.nodes 0) (fired now (h.timer (h.nodes 0))) k
  pub left :
      (k : ℕ)
      → copies k r + bit (not (h.timer (h.nodes 0)).is_periodic && (h.nodes 0 == k)) ≡ copies k h
  pub fewer :
      ((h.timer (h.nodes 0)).is_periodic ≡ true
        → now < (fired now (h.timer (h.nodes 0))).expire_at_ms)
      → due_count now r + 1 ≡ due_count now h

fired-running : (now : ℕ) (x : Timer) → x.is_periodic ≡ true → (fired now x).is_running ≡ true
unfolding fired
fired-running now x e = ground (arith, e)

module _ (now : ℕ) (h : TimerHeap) (v : Sound h) (some_timer : 0 < h.size) where
  itself : bit (h.nodes 0 == h.nodes 0) ≡ 1
  itself = ground arith

  removed : copies (h.nodes 0) (remove_at h 0) ≡ 0
  removed =
      omega
        (arith, remove_root-tally (λ k. k == h.nodes 0) h some_timer, v.once (h.nodes 0), itself)

  room : (landed now h).size < (landed now h).capacity
  unfolding remove_at heapify_down
  room = omega (arith, v.inv.fits)

  landed-TimersInv : TimersInv (landed now h)
  landed-TimersInv =
      set_timer-TimersInv (remove_at h 0) (h.nodes 0) (fired now (h.timer (h.nodes 0))) removed
        (remove_root-TimersInv h some_timer v.inv)

  landed-copies : (k : ℕ) → copies k (landed now h) + bit (h.nodes 0 == k) ≡ copies k h
  landed-copies k = remove_root-tally (λ j. j == k) h some_timer

  landed-timer :
      (k : ℕ)
      → (landed now h).timer k ≡ update h.timer (h.nodes 0) (fired now (h.timer (h.nodes 0))) k
  landed-timer k =
      ap (λ a. update a (h.nodes 0) (fired now (h.timer (h.nodes 0))) k) (remove_at-timer h 0)

  landed-due :
      leb (expire h (h.nodes 0)) now ≡ true → due_count now (landed now h) + 1 ≡ due_count now h
  landed-due due = omega (
    arith,
    due_count-set_timer (remove_at h 0) (h.nodes 0) (fired now (h.timer (h.nodes 0))) removed now,
    ap (λ a. tally (λ k. leb (a k).expire_at_ms now) (remove_at h 0).size (remove_at h 0).nodes)
        (remove_at-timer h 0),
    remove_root-tally (λ k. leb (expire h k) now) h some_timer,
    ap bit due,
  )

  once-Round :
      leb (expire h (h.nodes 0)) now ≡ true
      → (h.timer (h.nodes 0)).is_periodic ≡ false
      → Round now h (landed now h)
  once-Round due once = record {
    sound = record { inv = landed-TimersInv; once = λ k. omega (arith, landed-copies k, v.once k) };
    timers = landed-timer;
    left = λ k. rw once (landed-copies k);
    fewer = λ _. landed-due due;
  }

  periodic-Round :
      leb (expire h (h.nodes 0)) now ≡ true
      → (h.timer (h.nodes 0)).is_periodic ≡ true
      → Round now h (insert (landed now h) (h.nodes 0))
  unfolding insert heapify_up
  periodic-Round due periodic = record {
    sound = record {
      inv = insert-TimersInv (landed now h) (h.nodes 0) runs room landed-TimersInv;
      once = λ k. omega (arith, again_there k, v.once k);
    };
    timers = landed-timer;
    left = λ k. omega (arith, again_there k, ap (λ b. bit (not b && (h.nodes 0 == k))) periodic);
    fewer = λ later. omega (
      arith,
      insert-tally (λ k. leb (expire (landed now h) k) now) (landed now h) (h.nodes 0),
      landed-due due,
      not_due (later periodic),
    );
  }
    where
      stored : (landed now h).timer (h.nodes 0) ≡ fired now (h.timer (h.nodes 0))
      stored =
          landed-timer (h.nodes 0)
          ∙ update_self h.timer (h.nodes 0) (fired now (h.timer (h.nodes 0)))

      runs : ((landed now h).timer (h.nodes 0)).is_running ≡ true
      runs =
          ap (λ (x : Timer). x.is_running) stored ∙ fired-running now (h.timer (h.nodes 0)) periodic

      not_due :
          now < (fired now (h.timer (h.nodes 0))).expire_at_ms
          → bit (leb (expire (landed now h) (h.nodes 0)) now) ≡ 0
      not_due later =
          ap (λ (x : Timer). bit (leb x.expire_at_ms now)) stored ∙ ground (arith, later)

      again_there : (k : ℕ) → copies k (insert (landed now h) (h.nodes 0)) ≡ copies k h
      again_there k =
          omega (arith, insert-tally (λ j. j == k) (landed now h) (h.nodes 0), landed-copies k)

  -- A round on a heap whose root is due, with a callback that leaves the timers alone.
  pub fire-Round :
      (run : ℕ → TimerHeap → TimerHeap)
      → ((cb : ℕ) (g : TimerHeap) → run cb g ≡ g)
      → leb (expire h (h.nodes 0)) now ≡ true
      → Round now h (fire run now h)
  fire-Round run quiet due =
      subst (Round now h) (sym (fire-quiet run now h quiet))
        (elim (Bool-cases (h.timer (h.nodes 0)).is_periodic) [
          | inl periodic ↦ picked true (sym periodic) (periodic-Round due periodic)
          | inr once ↦ picked false (sym once) (once-Round due once)
        ])
    where
      picked :
          (b : Bool)
          → b ≡ (h.timer (h.nodes 0)).is_periodic
          → Round now h (if b then insert (landed now h) (h.nodes 0) else landed now h)
          → Round now h (
              if (h.timer (h.nodes 0)).is_periodic
              then insert (landed now h) (h.nodes 0)
              else landed now h)
      picked b e =
          subst (λ c. Round now h (if c then insert (landed now h) (h.nodes 0) else landed now h)) e
