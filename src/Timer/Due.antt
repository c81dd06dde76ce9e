-- ===== src/Timer/Due.antt =====
-- The loop of `process_timers`, while the clock stands: it fires every timer that is due once, and
-- no other.
use gemini_nos.Base.{
  ℕ, zero, suc, ◌+◌, ◌%◌, ◌^◌, ◌≤◌, ◌<◌, ◌≡◌, ◌⊎◌, ap, arith, Bool, true, false, leb, ◌==◌, ==_iff,
  Bool-cases, inl, inr, List, [], ◌∷◌,
}
use gemini_nos.Timer.{Timer, TimerHeap, expire, due}
use gemini_nos.Timer.Order.{root_least}
use gemini_nos.Timer.Tally.{bit, tally, tally-none}
use gemini_nos.Timer.Firing.{copies, Sound, fired}
use gemini_nos.Timer.Round.{Round}

-- Readings of a clock that stands at `now`.
abbrev pub standing : ℕ → ℕ → List (ℕ × ℕ)
standing now zero = []
standing now (suc n) = (now, now) ∷ standing now n

-- What the loop makes of timer `t`: fired if it was due, and otherwise as it was.
pub record Outcome (now : ℕ) (h r : TimerHeap) (t : ℕ) : Type 0 where
  pub went :
      0 < copies t h
      → expire h t ≤ now
      → (r.timer t ≡ fired now (h.timer t)) × (copies t r ≡ bit (h.timer t).is_periodic)
  pub stayed :
      (copies t h ≡ 0) ⊎ (now < expire h t) → (r.timer t ≡ h.timer t) × (copies t r ≡ copies t h)

-- No periodic timer of the heap comes round to the time at which it fires.
abbrev pub Advancing : ℕ → TimerHeap → Type 0
Advancing now h =
    (t : ℕ)
    → 0 < copies t h
    → (h.timer t).is_periodic ≡ true
    → now < (now + (h.timer t).interval_ms) % 2 ^ 64

tally-le : (P : ℕ → Bool) (n : ℕ) (nodes : ℕ → ℕ) → tally P n nodes ≤ n
unfolding tally
tally-le P zero nodes = omega arith
tally-le P (suc n) nodes = ground (arith, tally-le P n nodes)

-- A heap whose root is not due has no timer that is.
pub not_due :
    (now t : ℕ) (h : TimerHeap) → Sound h → due h now ≡ false → 0 < copies t h → now < expire h t
not_due now t h v none_due there = elim (Bool-cases (leb (expire h t) now)) [
  | inr later ↦ ground (arith, later)
  | inl early ↦ absurd (omega (arith, tally-none (λ k. k == t) h.size h.nodes (elsewhere early)))
]
  where
    beyond : (i : ℕ) → i < h.size → now < expire h (h.nodes i)
    beyond i p = ground (arith, none_due, root_least h i v.inv.order p)

    elsewhere : leb (expire h t) now ≡ true → (i : ℕ) → i < h.size → (h.nodes i == t) ≡ false
    elsewhere early i p = elim (Bool-cases (h.nodes i == t)) [
      | inr miss ↦ miss
      | inl hit ↦
          absurd (ground (arith, early, beyond i p, ap (expire h) ((==_iff (h.nodes i) t).0 hit)))
    ]
