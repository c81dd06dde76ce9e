-- ===== src/Timer/Firing.antt =====
-- One round of `process_timers`, with a callback that leaves the timers alone.
use gemini_nos.Base.{
  ℕ, ◌+◌, ◌-◌, ◌%◌, ◌^◌, ◌≤◌, ◌<◌, ◌≡◌, ◌≢◌, refl, ap, ◌∙◌, arith, Bool, true, false, update,
  update_ne, update_self, update_ind, update-update, leb, ◌==◌, if◌then◌else◌, Option-cases, inl,
  inr,
}
use gemini_nos.Timer.{
  Timer, TimerHeap, expire, parent, heapify_up, heapify_down, insert, remove_at, set_timer,
  call_back, rearm, fire,
}
use gemini_nos.Timer.Up.{insert-IsHeap}
use gemini_nos.Timer.Down.{remove_root-IsHeap}
use gemini_nos.Timer.Calls.{TimersInv, up_loop-AllNodes, down_loop-AllNodes}
use gemini_nos.Timer.Tally.{tally, tally-ext, tally-least}

-- How often a timer stands in the heap.
abbrev pub copies : ℕ → TimerHeap → ℕ
copies t h = tally (λ k. k == t) h.size h.nodes

-- How many timers in the heap are due.
abbrev pub due_count : ℕ → TimerHeap → ℕ
due_count now h = tally (λ k. leb (expire h k) now) h.size h.nodes

-- The heap of a thread between calls, each timer in it once.
pub record Sound (h : TimerHeap) : Type 0 where
  pub inv : TimersInv h
  pub once : (t : ℕ) → copies t h ≤ 1

-- What firing at time `now` makes of a timer.
unfoldable pub fired : ℕ → Timer → Timer
fired now x =
    if x.is_periodic
    then record x { expire_at_ms = (now + x.interval_ms) % 2 ^ 64; is_running = true }
    else record x { is_running = false }

absent-apart : (h : TimerHeap) (t : ℕ) → copies t h ≡ 0 → (i : ℕ) → i < h.size → t ≢ h.nodes i
absent-apart h t none_there i p e =
    ground (arith, none_there, tally-least (λ k. k == t) h.size i h.nodes p, e)

module _ (h : TimerHeap) (t : ℕ) (x : Timer) (none_there : copies t h ≡ 0) where
  kept : (i : ℕ) → i < h.size → (set_timer h t x).timer (h.nodes i) ≡ h.timer (h.nodes i)
  kept i p = update_ne h.timer x (absent-apart h t none_there i p)

  pub set_timer-TimersInv : TimersInv h → TimersInv (set_timer h t x)
  set_timer-TimersInv v = record {
    order = λ c p q. omega (
      arith,
      v.order c p q,
      ap (λ (r : Timer). r.expire_at_ms) (kept (parent c) (omega arith)),
      ap (λ (r : Timer). r.expire_at_ms) (kept c q),
    );
    fits = v.fits;
    running = λ i p. ap (λ (r : Timer). r.is_running) (kept i p) ∙ v.running i p;
  }

  pub due_count-set_timer : (now : ℕ) → due_count now (set_timer h t x) ≡ due_count now h
  due_count-set_timer now =
      tally-ext (λ k. leb (expire (set_timer h t x) k) now) (λ k. leb (expire h k) now) h.size
        h.nodes (λ i p. ap (λ (r : Timer). leb r.expire_at_ms now) (kept i p))

pub insert-TimersInv :
    (h : TimerHeap) (t : ℕ)
    → (h.timer t).is_running ≡ true
    → h.size < h.capacity
    → TimersInv h
    → TimersInv (insert h t)
unfolding insert heapify_up
insert-TimersInv h t runs room v = record {
  order = insert-IsHeap h t v.order;
  fits = omega arith;
  running =
      up_loop-AllNodes (λ k. (h.timer k).is_running ≡ true) (expire h) (h.size + 1) (h.size + 1)
        (update h.nodes h.size t) h.size (omega arith)
        (λ i p.
          update_ind h.nodes (λ _ k. (h.timer k).is_running ≡ true) h.size i t runs
            (λ ne. v.running i (omega arith)));
}

pub remove_root-TimersInv : (h : TimerHeap) → 0 < h.size → TimersInv h → TimersInv (remove_at h 0)
unfolding remove_at heapify_down
remove_root-TimersInv h some_timer v = record {
  order = remove_root-IsHeap h some_timer v.order;
  fits = omega (arith, v.fits);
  running =
      down_loop-AllNodes (λ k. (h.timer k).is_running ≡ true)
        (expire (record h { nodes = update h.nodes 0 (h.nodes (h.size - 1)); size = h.size - 1 }))
        (h.size - 1) (h.size - 1 + 1) (update h.nodes 0 (h.nodes (h.size - 1))) 0
        (λ i p.
          update_ind h.nodes (λ _ k. (h.timer k).is_running ≡ true) 0 i (h.nodes (h.size - 1))
            (v.running (h.size - 1) (omega arith)) (λ ne. v.running i (omega arith)));
}

-- The round, with the two writes to the timer as one.
abbrev pub landed : ℕ → TimerHeap → TimerHeap
landed now h = set_timer (remove_at h 0) (h.nodes 0) (fired now (h.timer (h.nodes 0)))

call_back-quiet :
    (run : ℕ → TimerHeap → TimerHeap) (t : ℕ) (h : TimerHeap)
    → ((cb : ℕ) (g : TimerHeap) → run cb g ≡ g)
    → call_back run t h ≡ h
unfolding call_back
call_back-quiet run t h quiet = elim (Option-cases (h.timer t).callback) [
  | inl absent ↦ rw (absent, call_back) refl
  | inr (cb, there) ↦ rw (there, call_back) (quiet cb h)
]

abbrev idle : Timer → Timer
idle x = record x { is_running = false }

abbrev again : ℕ → Timer → Timer
again now x = record x { expire_at_ms = (now + x.interval_ms) % 2 ^ 64; is_running = true }

-- The two writes to a timer are one.
at_once :
    (now t : ℕ) (g : TimerHeap) (periodic : Bool) (x y : Timer)
    → (if periodic then insert (set_timer (set_timer g t y) t x) t else set_timer g t y) ≡ (
        if periodic
        then insert (set_timer g t (if periodic then x else y)) t
        else set_timer g t (if periodic then x else y))
at_once now t g true x y = ap (λ a. insert (record g { timer = a }) t) (update-update g.timer t y x)
at_once now t g false x y = refl

rearm-fired :
    (now t : ℕ) (g : TimerHeap)
    → rearm now t (set_timer g t (idle (g.timer t))) ≡ (
        if (g.timer t).is_periodic
        then insert (set_timer g t (fired now (g.timer t))) t
        else set_timer g t (fired now (g.timer t)))
unfolding rearm fired
rearm-fired now t g =
    ap
      (λ (x : Timer).
        if x.is_periodic
        then insert (set_timer (set_timer g t (idle (g.timer t))) t (again now x)) t
        else set_timer g t (idle (g.timer t)))
      (update_self g.timer t (idle (g.timer t)))
    ∙ at_once now t g (g.timer t).is_periodic (again now (g.timer t)) (idle (g.timer t))

pub remove_at-timer : (h : TimerHeap) (i : ℕ) → (remove_at h i).timer ≡ h.timer
unfolding remove_at heapify_down
remove_at-timer h i = refl

pub fire-quiet :
    (run : ℕ → TimerHeap → TimerHeap) (now : ℕ) (h : TimerHeap)
    → ((cb : ℕ) (g : TimerHeap) → run cb g ≡ g)
    → fire run now h ≡ (
        if (h.timer (h.nodes 0)).is_periodic
        then insert (landed now h) (h.nodes 0)
        else landed now h)
unfolding fire remove_at heapify_down
fire-quiet run now h quiet =
    ap (rearm now (h.nodes 0)) (
      call_back-quiet run (h.nodes 0)
        (set_timer (remove_at h 0) (h.nodes 0) (idle (h.timer (h.nodes 0)))) quiet)
    ∙ rearm-fired now (h.nodes 0) (remove_at h 0)
