-- ===== src/Thread/Sleep.antt =====
-- How long a thread sleeps.
use gemini_nos.Base.{
  ◌⊎◌, inl, inr, ℕ, ◌+◌, ◌-◌, ◌^◌, ◌≤◌, ◌<◌, ◌≡◌, arith, true, Option, none, some, dec_lt,
}
use gemini_nos.Timer.{TimerHeap, expire, due}
use gemini_nos.Timer.Order.{IsHeap, root_least}
use gemini_nos.Thread.{poll_timeout}

-- What a timeout is worth: there is no timer, and the thread waits for an event; or the first timer
-- is due by the end of the wait, and the wait passes no timer by; or the first timer is 2^31
-- milliseconds away or more, and for one that is less than 2^32 away the wait has no limit.
pub data Timeout (h : TimerHeap) (now : ℕ) (o : Option ℕ) : Type 0 where
  no_timer : h.size ≡ 0 → o ≡ none → Timeout h now o
  in_time :
      (wait : ℕ)
      → o ≡ some wait
      → due h (now + wait) ≡ true
      → ((i : ℕ) → i < h.size → 0 < wait → now + wait ≤ expire h (h.nodes i))
      → Timeout h now o
  far :
      0 < h.size
      → now + 2 ^ 31 ≤ expire h (h.nodes 0)
      → (now + 2 ^ 32 ≤ expire h (h.nodes 0)) ⊎ (o ≡ none)
      → Timeout h now o

-- In a heap in order, the loop waits for an event where no timer runs, and else until the first timer
-- is due, and no longer than to the time of any timer, unless the first is 2^31 milliseconds away
-- or more; for one that is less than 2^32 away it then waits without limit.
pub poll_timeout_lem : (h : TimerHeap) (now : ℕ) → IsHeap h → Timeout h now (poll_timeout h now)
unfolding poll_timeout
poll_timeout_lem h now v = elim (dec_lt 0 h.size) [
  | no empty ↦ no_timer (omega arith) (ground arith)
  | yes some_timer ↦ elim (dec_lt now (expire h (h.nodes 0))) [
    | no past ↦ in_time 0 (ground arith) (ground arith) (λ i p w. absurd (omega arith))
    | yes ahead ↦ elim (dec_lt (expire h (h.nodes 0)) (now + 2 ^ 31)) [
      | no away ↦ elim (dec_lt (expire h (h.nodes 0)) (now + 2 ^ 32)) [
        | yes cut ↦ far some_timer (omega arith) (inr (ground arith))
        | no more ↦ far some_timer (omega arith) (inl (omega arith))
      ]
      | yes near ↦
          in_time (expire h (h.nodes 0) - now) (ground arith) (ground arith)
            (λ i p w. omega (arith, root_least h i v p))
    ]
  ]
]
