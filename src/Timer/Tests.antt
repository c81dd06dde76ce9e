-- ===== src/Timer/Tests.antt =====
-- Concrete timer heaps.
use gemini_nos.Base.{
  refl, ◌+◌, ◌*◌, ◌≡◌, ◌⊎◌, arith, true, false, none, ◌≤◌, nos_ok, nos_err, ◌==◌, leb,
  if◌then◌else◌,
}
use gemini_nos.Timer.{TimerHeap, expire, due, process_timers, remove_at, timer_start}
use gemini_nos.Timer.Tally.{tally}
use gemini_nos.Timer.Firing.{Sound}
use gemini_nos.Timer.Due.{standing}
use gemini_nos.Timer.Spinning.{IsRestless, zero_interval_spins}
use gemini_nos.Timer.Order.{IsHeap, root_least}
use gemini_nos.Timer.Calls.{TimersInv, timer_start-TimersInv}
use gemini_nos.Timer.Stop.{remove_at_breaks}

-- Three timers in the heap, which expire at 10, 20 and 30, and others that do not run.
abbrev three : TimerHeap
three = record {
  nodes = λ i. i;
  size = 3;
  capacity = 8;
  timer = λ t. record {
    expire_at_ms = t * 10 + 10;
    interval_ms = 10;
    is_periodic = false;
    callback = none;
    is_running = if leb t 2 then true else false;
    owned = true;
  };
}

three-IsHeap : IsHeap three
three-IsHeap c p q = omega arith

three-TimersInv : TimersInv three
three-TimersInv = record { order = three-IsHeap; fits = omega arith; running = λ i p. ground arith }

root_least_example : expire three 0 ≤ expire three 2
root_least_example = root_least three 2 three-IsHeap (omega arith)

timer_start_example :
    let r = timer_start three 1000 3 50 true in
    TimersInv r.1
    × ((r.0 ≡ nos_ok) ⊎ ((r.0 ≡ nos_err) × (r.1 ≡ three)))
    × (r.0 ≡ nos_ok
        → ((three.timer 3).is_running ≡ false)
          × (r.1.size ≡ 4)
          × ((r.1.timer 3).is_running ≡ true)
          × ((r.1.timer 3).expire_at_ms ≡ 1050))
timer_start_example = timer_start-TimersInv three 1000 3 50 true three-TimersInv

-- A heap of six whose last timer expires before the parent of the fourth.
abbrev six : TimerHeap
six = record three {
  size = 6;
  timer = λ t. record (three.timer t) {
    expire_at_ms =
        if t == 0 then 1 else if t == 1 then 10 else if t == 2 then 2 else if t == 5 then 3 else 20;
  };
}

remove_at_breaks_example : ¬ IsHeap (remove_at six 3)
remove_at_breaks_example = remove_at_breaks six 3 (omega arith) (omega arith) (omega arith)

-- Three timers, the second of which is periodic, at the time 25: two are due.
abbrev mixed : TimerHeap
mixed = record {
  nodes = λ i. i;
  size = 3;
  capacity = 8;
  timer = λ t. record {
    expire_at_ms = t * 10 + 10;
    interval_ms = 10;
    is_periodic = t == 1;
    callback = none;
    is_running = if leb t 2 then true else false;
    owned = true;
  };
}

-- One timer, periodic with an interval of 0.
abbrev restless : TimerHeap
restless = record {
  nodes = λ i. i;
  size = 1;
  capacity = 8;
  timer = λ t. record {
    expire_at_ms = 10;
    interval_ms = 0;
    is_periodic = true;
    callback = none;
    is_running = true;
    owned = true;
  };
}

restless-Sound : Sound restless
unfolding tally
restless-Sound = record {
  inv = record { order = λ c p q. absurd (omega arith); fits = omega arith; running = λ i p. refl };
  once = λ t. ground arith;
}

restless-IsRestless : IsRestless 25 0 restless
unfolding tally
restless-IsRestless = record {
  there = omega arith;
  early = omega arith;
  periodic = refl;
  immediate = refl;
}

zero_interval_spins_example :
    due (process_timers (λ _ h. h) 25 (standing 25 100) restless) 25 ≡ true
zero_interval_spins_example =
    zero_interval_spins (λ _ h. h) 25 100 0 restless (λ _ _. refl) restless-Sound (omega arith)
      restless-IsRestless
