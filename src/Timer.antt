-- ===== src/Timer.antt =====
-- The timers of src/core/nos_scheduler.c: each thread keeps those that run in an array ordered as
-- a binary heap by the time at which they expire. A timer is named by a number, and a thread holds
-- the table of all timers beside its heap, since a timer is an object of its own. `nodes` and
-- `timer` are arrays. `now` stands for a reading of the clock. The loops take fuel, one more than
-- the number that each round brings down: the index on the way up, and the distance from the size
-- on the way down.
pub mod Order
pub mod Up
pub mod Down
pub mod Calls
pub mod Tally
pub mod Firing
pub mod Round
pub mod Due
pub mod Spinning
pub mod Stop
mod Tests
use gemini_nos.Base.{
  ℕ, zero, suc, ◌+◌, ◌-◌, ◌*◌, ◌/◌, ◌%◌, Bool, true, false, ◌&&◌, ◌||◌, not, Option, none, some,
  ltb, leb, ◌==◌, if◌then◌else◌, update, Status, nos_ok, nos_err, ◌^◌, List, [], ◌∷◌,
}
use gemini_nos.Base.Scan.{scan}

-- `struct nos_timer_s`. A callback is named by a number. `owned` says that `owner_thread` is set.
pub record Timer : Type 0 where
  pub expire_at_ms : ℕ
  pub interval_ms : ℕ
  pub is_periodic : Bool
  pub callback : Option ℕ
  pub is_running : Bool
  pub owned : Bool

-- `nos_timer_heap_t` of one thread, and the table of timers.
pub record TimerHeap : Type 0 where
  pub nodes : ℕ → ℕ
  pub size : ℕ
  pub capacity : ℕ
  pub timer : ℕ → Timer

-- The key that orders the heap.
abbrev pub expire : TimerHeap → ℕ → ℕ
expire h t = (h.timer t).expire_at_ms

abbrev pub parent : ℕ → ℕ
parent i = (i - 1) / 2

abbrev pub swap : (ℕ → ℕ) → ℕ → ℕ → ℕ → ℕ
swap nodes i j = update (update nodes i (nodes j)) j (nodes i)

-- The loop of `heapify_up`.
pub up_loop : (ℕ → ℕ) → ℕ → (ℕ → ℕ) → ℕ → ℕ → ℕ
up_loop exp zero nodes idx = nodes
up_loop exp (suc fuel) nodes idx =
    let rest = up_loop exp fuel (swap nodes idx (parent idx)) (parent idx) in
    if ltb 0 idx
    then (if leb (exp (nodes (parent idx))) (exp (nodes idx)) then nodes else rest)
    else nodes

-- `heapify_up`
pub heapify_up : TimerHeap → ℕ → TimerHeap
heapify_up h idx = record h { nodes = up_loop (expire h) (idx + 1) h.nodes idx }

-- `smallest`, the child that the loop of `heapify_down` compares with.
pub smallest : (ℕ → ℕ) → ℕ → (ℕ → ℕ) → ℕ → ℕ
smallest exp size nodes idx =
    if ltb (idx * 2 + 2) size && ltb (exp (nodes (idx * 2 + 2))) (exp (nodes (idx * 2 + 1)))
    then idx * 2 + 2
    else idx * 2 + 1

-- The loop of `heapify_down`.
pub down_loop : (ℕ → ℕ) → ℕ → ℕ → (ℕ → ℕ) → ℕ → ℕ → ℕ
down_loop exp size zero nodes idx = nodes
down_loop exp size (suc fuel) nodes idx =
    let child = smallest exp size nodes idx in
    let rest = down_loop exp size fuel (swap nodes idx child) child in
    if ltb (idx * 2 + 1) size
    then (if leb (exp (nodes idx)) (exp (nodes child)) then nodes else rest)
    else nodes

-- `heapify_down`
pub heapify_down : TimerHeap → ℕ → TimerHeap
heapify_down h idx = record h { nodes = down_loop (expire h) h.size (h.size + 1) h.nodes idx }

-- `nodes[i] = nodes[--size]; heapify_down(i)`, with which a timer leaves the heap.
pub remove_at : TimerHeap → ℕ → TimerHeap
unfolding heapify_down
remove_at h i =
    heapify_down (record h { nodes = update h.nodes i (h.nodes (h.size - 1)); size = h.size - 1 }) i

-- `nodes[size] = timer; heapify_up(size++)`, with which one enters it.
pub insert : TimerHeap → ℕ → TimerHeap
unfolding heapify_up
insert h t =
    let h' = heapify_up (record h { nodes = update h.nodes h.size t }) h.size in
    record h' { size = h.size + 1 }

abbrev pub set_timer : TimerHeap → ℕ → Timer → TimerHeap
set_timer h t timer = record h { timer = update h.timer t timer }

-- `nos_timer_create` into slot `t` of the table
pub timer_create : TimerHeap → ℕ → Option ℕ → TimerHeap
timer_create h t callback = set_timer h t (record {
  expire_at_ms = 0;
  interval_ms = 0;
  is_periodic = false;
  callback = callback;
  is_running = false;
  owned = false;
})

-- `nos_timer_start`, for a component that lives on the thread of this heap. The thread is then
-- woken through its `notify_fd`.
pub timer_start : TimerHeap → ℕ → ℕ → ℕ → Bool → Status × TimerHeap
timer_start h now t interval periodic =
    if (h.timer t).is_running || leb h.capacity h.size then (nos_err, h) else (
      nos_ok,
      insert
          (set_timer h t (record (h.timer t) {
            interval_ms = interval;
            expire_at_ms = (now + interval) % 2 ^ 64;
            is_periodic = periodic;
            is_running = true;
            owned = true;
          }))
          t,
    )

-- The search of `nos_timer_stop` and `nos_timer_delete`.
abbrev pub position : TimerHeap → ℕ → Option ℕ
position h t = scan (λ i. h.nodes i == t) 0 h.size

-- `nos_timer_stop`, for a timer of this thread.
pub timer_stop : TimerHeap → ℕ → Status × TimerHeap
unfolding remove_at
timer_stop h t =
    if (h.timer t).is_running
    then elim (position h t) [
      | none ↦ (nos_err, h)
      | some i ↦
          let h' = remove_at h i in
          (nos_ok, set_timer h' t (record (h'.timer t) { is_running = false }))
    ]
    else (nos_err, h)

-- The steps of `nos_timer_delete` before `free_arg`.
withdraw : TimerHeap → ℕ → TimerHeap
unfolding remove_at
withdraw h t =
    if (h.timer t).is_running && (h.timer t).owned
    then elim (position h t) [ none ↦ h | some i ↦ remove_at h i ]
    else h

-- `nos_timer_delete`; the timer's slot is then free. `free_arg`, which the timer got when it was
-- created, is code of a component: what it does to the timers, or `none` for `NULL`.
pub timer_delete : Option (TimerHeap → TimerHeap) → TimerHeap → ℕ → TimerHeap
unfolding withdraw
timer_delete none h t = withdraw h t
timer_delete (some free_arg) h t = free_arg (withdraw h t)

-- The call of a timer's callback. A callback is code of a component, which may start and stop
-- timers: `run` says what it does to them.
pub call_back : (ℕ → TimerHeap → TimerHeap) → ℕ → TimerHeap → TimerHeap
call_back run t h = elim ((h.timer t).callback) [ none ↦ h | some cb ↦ run cb h ]

-- A periodic timer enters the heap again. `later` is the second reading of the clock.
pub rearm : ℕ → ℕ → TimerHeap → TimerHeap
unfolding insert
rearm later t h =
    if (h.timer t).is_periodic
    then insert
        (set_timer h t (record (h.timer t) {
          expire_at_ms = (later + (h.timer t).interval_ms) % 2 ^ 64;
          is_running = true;
        }))
        t
    else h

-- One round of `process_timers`: the timer at the root leaves the heap, its callback runs, and if
-- it is periodic it enters again.
pub fire : (ℕ → TimerHeap → TimerHeap) → ℕ → TimerHeap → TimerHeap
unfolding remove_at call_back rearm
fire run later h =
    let t = h.nodes 0 in
    let h1 = remove_at h 0 in
    rearm later t (call_back run t (set_timer h1 t (record (h1.timer t) { is_running = false })))

-- Whether the loop of `process_timers` goes on at the time `now`.
abbrev pub due : TimerHeap → ℕ → Bool
due h now = ltb 0 h.size && leb (expire h (h.nodes 0)) now

-- `process_timers`, along a list of clock readings: the first for the test, and then for each
-- round one for a periodic timer and one for the next test. The list bounds the number of rounds.
pub process_timers : (ℕ → TimerHeap → TimerHeap) → ℕ → List (ℕ × ℕ) → TimerHeap → TimerHeap
unfolding fire
process_timers run now [] h = h
process_timers run now ((later, next) ∷ clock) h =
    let rest = process_timers run next clock (fire run later h) in if due h now then rest else h
