-- ===== src/Thread.antt =====
-- The set-up and the end of a thread, and what `nos_scheduler_run_loop` does before its loop and
-- before it sleeps (src/core/nos_scheduler.c). The parts of `nos_thread_t` are those of Poller, Queue
-- and Timer. Whether `eventfd` succeeds, and what the components' `start` answers, are arguments.
pub mod Sleep
pub mod Drain
mod Tests
use gemini_nos.Base.{
  ℕ, zero, suc, ◌+◌, ◌-◌, ◌*◌, ◌%◌, ◌^◌, Bool, true, false, ◌&&◌, Option, none, some, ltb, leb,
  ◌==◌, if◌then◌else◌, update, Status, nos_ok, nos_err,
}
use gemini_nos.Memory.{Memory, release}
use gemini_nos.Node.{CompStatus, Component, active}
use gemini_nos.Poller.{Poller, Roster}
use gemini_nos.Queue.{Inbox, max_queue_size}
use gemini_nos.Timer.{TimerHeap, expire}

-- `nos_thread_t`
pub record Thread : Type 0 where
  pub thread_id : ℕ
  pub roster : Roster
  pub poller : Poller
  pub inbox : Inbox
  pub timer_heap : TimerHeap
  pub stop_requested : Bool

-- `nos_scheduler_init_thread`; `none` is `NULL`. The arrays are taken as they are.
pub init_thread : ℕ → Bool → Option Thread → Status × Option Thread
init_thread id has_eventfd none = (nos_err, none)
init_thread id has_eventfd (some t) =
    let queued = record t {
      thread_id = id;
      roster = record (t.roster) { component_count = 0 };
      poller = record (t.poller) { fd_count = 0; watched = λ _. none };
      inbox = record (t.inbox) { head = 0; tail = 0; is_sleeping = false; notified = 0 };
      stop_requested = false;
    } in
    if has_eventfd
    then (
      nos_ok,
      some (record queued { timer_heap = record (t.timer_heap) { capacity = 128; size = 0 } }),
    )
    else (nos_err, some queued)

-- The loop of `nos_scheduler_deinit_thread` over the messages left in the queue, with fuel.
pub drain_queue : ℕ → Memory → Inbox → Memory × Inbox
drain_queue zero m q = (m, q)
drain_queue (suc fuel) m q =
    let rest =
      drain_queue fuel (release m (some (q.msg_queue q.head)))
        (record q { head = (q.head + 1) % max_queue_size }) in
    if q.head == q.tail then (m, q) else rest

-- `nos_scheduler_deinit_thread`. The queue holds fewer messages than it has slots.
pub deinit_thread : Memory → Option Thread → Memory × Option Thread
unfolding drain_queue
deinit_thread m none = (m, none)
deinit_thread m (some t) =
    let (m', q) = drain_queue max_queue_size m t.inbox in (m', some (record t { inbox = q }))

-- `nos_scheduler_stop`
pub stop : Option Thread → Option Thread
stop none = none
stop (some t) = some (record t {
  stop_requested = true;
  inbox = record (t.inbox) { notified = t.inbox.notified + 1 };
})

is_active : CompStatus → Bool
is_active active = true
is_active _ = false

-- The loop with which `nos_scheduler_run_loop` starts the components from place `i` on. `has_start`
-- and `starts` are the callback of a component and whether it answers `NOS_OK`.
pub start_components : (ℕ → Bool) → (ℕ → Bool) → Roster → ℕ → ℕ → (ℕ → Component) → ℕ → Component
unfolding is_active
start_components has_start starts r i zero comp = comp
start_components has_start starts r i (suc n) comp =
    let c = r.components i in
    let started =
      if has_start c && (if is_active (comp c).status then false else starts c)
      then update comp c (record (comp c) { status = active })
      else comp in
    start_components has_start starts r (i + 1) n started

-- The timeout with which the loop calls `epoll_wait`, at the time `now`: `none` is a negative number,
-- for which `epoll_wait` waits without limit. The difference is cut to an `int`.
pub poll_timeout : TimerHeap → ℕ → Option ℕ
poll_timeout h now =
    let first = expire h (h.nodes 0) in
    if ltb 0 h.size
    then (if leb first now
        then some 0
        else let cut = (first - now) % 2 ^ 32 in if ltb cut (2 ^ 31) then some cut else none)
    else none

-- `sizeof` of the types of a thread
pub record Sizes : Type 0 where
  pub thread : ℕ
  pub pointer : ℕ
  pub fd_entry : ℕ

-- `get_thread_mem_usage`
pub thread_mem_usage : Sizes → Option Thread → ℕ
thread_mem_usage z none = 0
thread_mem_usage z (some t) =
    z.thread
    + 32 * z.pointer
    + 32 * z.fd_entry
    + 1024 * z.pointer
    + t.timer_heap.capacity * z.pointer

-- The loop of `nos_scheduler_get_total_mem_usage` over the workers from `i` on
workers_mem_usage : Sizes → (ℕ → Thread) → ℕ → ℕ → ℕ
unfolding thread_mem_usage
workers_mem_usage z workers i zero = 0
workers_mem_usage z workers i (suc n) =
    thread_mem_usage z (some (workers i)) + workers_mem_usage z workers (i + 1) n

-- `nos_scheduler_get_total_mem_usage`
pub total_mem_usage : Sizes → Option Thread → (ℕ → Thread) → ℕ → ℕ
unfolding workers_mem_usage
total_mem_usage z mgmt workers count = thread_mem_usage z mgmt + workers_mem_usage z workers 0 count
