-- ===== src/Timer/Spinning.antt =====
-- A periodic timer without an interval, in the loop of `process_timers`.
use gemini_nos.Base.{
  ℕ, zero, suc, ◌^◌, ◌≤◌, ◌<◌, ◌≡◌, ◌≢◌, ap, ◌∙◌, subst, arith, true, update_ne, update_self,
  Bool-cases, inl, inr, ℕ_discrete,
}
use gemini_nos.Timer.{Timer, TimerHeap, expire, due, fire, process_timers}
use gemini_nos.Timer.Firing.{copies, Sound, fired}
use gemini_nos.Timer.Round.{Round, fire-Round}
use gemini_nos.Timer.Due.{standing, not_due}

-- A periodic timer without an interval.
pub record IsRestless (now t : ℕ) (h : TimerHeap) : Type 0 where
  pub there : 0 < copies t h
  pub early : expire h t ≤ now
  pub periodic : (h.timer t).is_periodic ≡ true
  pub immediate : (h.timer t).interval_ms ≡ 0

restless-due : (now t : ℕ) (h : TimerHeap) → Sound h → IsRestless now t h → due h now ≡ true
restless-due now t h v w = elim (Bool-cases (due h now)) [
  | inl some_due ↦ some_due
  | inr none_due ↦ absurd (omega (arith, w.early, not_due now t h v none_due w.there))
]

fired-restless :
    (now : ℕ) (x : Timer)
    → now < 2 ^ 64
    → x.is_periodic ≡ true
    → x.interval_ms ≡ 0
    → ((fired now x).expire_at_ms ≡ now)
      × ((fired now x).is_periodic ≡ true)
      × ((fired now x).interval_ms ≡ 0)
unfolding fired
fired-restless now x fits periodic immediate =
    (ground (arith, fits, periodic, immediate), ground (arith, periodic), ground (arith, immediate))

module _ {now t : ℕ} {h g : TimerHeap} (fits : now < 2 ^ 64) (round : Round now h g)
    (w : IsRestless now t h) where
  fired_again : h.nodes 0 ≡ t → IsRestless now t g
  fired_again e = record {
    there = ground (arith, round.left t, w.there, ap (λ k. (h.timer k).is_periodic) e ∙ w.periodic);
    early = omega (arith, ap (λ (x : Timer). x.expire_at_ms) stored, f.0);
    periodic = ap (λ (x : Timer). x.is_periodic) stored ∙ f.1;
    immediate = ap (λ (x : Timer). x.interval_ms) stored ∙ f.2;
  }
    where
      stored : g.timer t ≡ fired now (h.timer t)
      stored =
          subst (λ k. g.timer k ≡ fired now (h.timer k)) e
            (round.timers (h.nodes 0)
              ∙ update_self h.timer (h.nodes 0) (fired now (h.timer (h.nodes 0))))

      f :
          ((fired now (h.timer t)).expire_at_ms ≡ now)
          × ((fired now (h.timer t)).is_periodic ≡ true)
          × ((fired now (h.timer t)).interval_ms ≡ 0)
      f = fired-restless now (h.timer t) fits w.periodic w.immediate

  left_alone : h.nodes 0 ≢ t → IsRestless now t g
  left_alone ne = record {
    there = ground (arith, round.left t, w.there, ne);
    early = omega (arith, ap (λ (x : Timer). x.expire_at_ms) same, w.early);
    periodic = ap (λ (x : Timer). x.is_periodic) same ∙ w.periodic;
    immediate = ap (λ (x : Timer). x.interval_ms) same ∙ w.immediate;
  }
    where
      same : g.timer t ≡ h.timer t
      same = round.timers t ∙ update_ne h.timer (fired now (h.timer (h.nodes 0))) ne

  round-IsRestless : IsRestless now t g
  round-IsRestless = elim (ℕ_discrete (h.nodes 0) t) [
    | yes e ↦ fired_again e
    | no ne ↦ left_alone ne
  ]

-- A periodic timer whose interval is 0 and which is due keeps `process_timers` in its loop as long
-- as the clock stands, however many rounds it makes, although no callback touches the timers.
pub zero_interval_spins :
    (run : ℕ → TimerHeap → TimerHeap) (now n t : ℕ) (h : TimerHeap)
    → ((cb : ℕ) (g : TimerHeap) → run cb g ≡ g)
    → Sound h
    → now < 2 ^ 64
    → IsRestless now t h
    → due (process_timers run now (standing now n) h) now ≡ true
unfolding process_timers
zero_interval_spins run now zero t h quiet v fits w = restless-due now t h v w
zero_interval_spins run now (suc n) t h quiet v fits w =
    let some_due = restless-due now t h v w in
    let some_timer : 0 < h.size = ground (arith, some_due) in
    let round = fire-Round now h v some_timer run quiet (ground (arith, some_due)) in
    rw some_due (
      zero_interval_spins run now n t (fire run now h) quiet round.sound fits
        (round-IsRestless fits round w))
