-- ===== src/Wakeup.antt =====
-- How a thread goes to sleep and is woken (src/core/nos_scheduler.c): the steps of
-- `nos_scheduler_run_loop` between its checks of the queue and `epoll_wait`, of the senders in
-- `nos_transport_local_send` after they have queued a message, and of `nos_scheduler_stop`,
-- interleaved in any order. The memory is taken to be sequentially consistent, which the fence and
-- the locks are there for. Senders do not differ, so they are counted by where they stand. Descriptors other
-- than `notify_fd`, and timers, are events that end `epoll_wait` at any time.
pub mod Safety
mod Tests
use gemini_nos.Base.{ℕ, ◌+◌, ◌<◌, ◌≡◌, ◌≢◌, Bool, true, false, leb, if◌then◌else◌}

-- Where the thread stands: at the top of its loop; processing messages, on the fast path (`true`)
-- or after a wakeup; polling its descriptors on the fast path; past the check that found the queue
-- empty; after `is_sleeping = 1`; past the second check of the queue; in `epoll_wait`, past that of
-- `stop_requested`; after it returned, with the event of `notify_fd` among those returned or not; or
-- out of the loop.
pub data Place : Type 0 where
  top polling resolved drowsy rechecked asleep ended : Place
  processing woken : Bool → Place

-- The shared state. `waiting` is the number of messages in the queue, `notified` the counter behind
-- `notify_fd`. Of the senders, `checking` have queued a message and are about to load `is_sleeping`,
-- and `writing` have found it set and are about to write to `notify_fd`. `stopping` have set
-- `stop_requested` and are about to write.
pub record Scene : Type 0 where
  pub place : Place
  pub is_sleeping : Bool
  pub waiting : ℕ
  pub notified : ℕ
  pub stop_requested : Bool
  pub checking : ℕ
  pub writing : ℕ
  pub stopping : ℕ

-- One step of one party. The steps of the thread that process messages take one message each. The
-- thread finds its queue empty in one step, sets `is_sleeping` in a later one, looks at the queue again
-- in a third and at `stop_requested` in a fourth, between which the others act.
pub data Step (s : Scene) : Scene → Type 0 where
  queue : Step s (record s { waiting = s.waiting + 1; checking = s.checking + 1 })
  see_awake :
      (n : ℕ) → s.checking ≡ n + 1 → s.is_sleeping ≡ false → Step s (record s { checking = n })
  see_sleeping :
      (n : ℕ)
      → s.checking ≡ n + 1
      → s.is_sleeping ≡ true
      → Step s (record s { checking = n; writing = s.writing + 1 })
  write : (n : ℕ) → s.writing ≡ n + 1 → Step s (record s { writing = n; notified = s.notified + 1 })
  request_stop : Step s (record s { stop_requested = true; stopping = s.stopping + 1 })
  write_stop :
      (n : ℕ) → s.stopping ≡ n + 1 → Step s (record s { stopping = n; notified = s.notified + 1 })
  leave : s.place ≡ top → s.stop_requested ≡ true → Step s (record s { place = ended })
  see_message : s.place ≡ top → 0 < s.waiting → Step s (record s { place = processing true })
  take :
      (fast : Bool) (n : ℕ)
      → s.place ≡ processing fast
      → s.waiting ≡ n + 1
      → Step s (record s { waiting = n })
  finish_fast : s.place ≡ processing true → s.waiting ≡ 0 → Step s (record s { place = polling })
  finish : s.place ≡ processing false → s.waiting ≡ 0 → Step s (record s { place = top })
  poll : s.place ≡ polling → Step s (record s { place = top })
  poll_notified :
      s.place ≡ polling → 0 < s.notified → Step s (record s { place = top; notified = 0 })
  see_empty : s.place ≡ top → s.waiting ≡ 0 → Step s (record s { place = resolved })
  doze : s.place ≡ resolved → Step s (record s { place = drowsy; is_sleeping = true })
  rouse_message :
      s.place ≡ drowsy → 0 < s.waiting → Step s (record s { place = top; is_sleeping = false })
  rouse_stop :
      s.place ≡ rechecked
      → s.stop_requested ≡ true
      → Step s (record s { place = top; is_sleeping = false })
  recheck : s.place ≡ drowsy → s.waiting ≡ 0 → Step s (record s { place = rechecked })
  sleep : s.place ≡ rechecked → s.stop_requested ≡ false → Step s (record s { place = asleep })
  wake_notified :
      s.place ≡ asleep
      → 0 < s.notified
      → Step s (record s { place = woken true; is_sleeping = false })
  wake_other : s.place ≡ asleep → Step s (record s { place = woken false; is_sleeping = false })
  read_notified :
      s.place ≡ woken true → Step s (record s { place = processing false; notified = 0 })
  pass_on : s.place ≡ woken false → Step s (record s { place = top })

-- The thread as `nos_scheduler_init_thread` leaves it, at the start of its loop.
abbrev pub initial : Scene
initial = record {
  place = top;
  is_sleeping = false;
  waiting = 0;
  notified = 0;
  stop_requested = false;
  checking = 0;
  writing = 0;
  stopping = 0;
}

pub data Reach : Scene → Type 0 where
  start : Reach initial
  later : {s t : Scene} → Reach s → Step s t → Reach t

-- Whether a step belongs to what is under way, and takes no message: no message is queued, nobody
-- requests a stop, and nothing but `notify_fd` ends `epoll_wait`.
pub settles : {s t : Scene} → Step s t → Bool
settles queue = false
settles (see_awake n e f) = true
settles (see_sleeping n e f) = true
settles (write n e) = true
settles request_stop = false
settles (write_stop n e) = true
settles (leave e f) = true
settles (see_message e f) = true
settles (take fast n e f) = false
settles (finish_fast e f) = true
settles (finish e f) = true
settles (poll e) = true
settles (poll_notified e f) = true
settles (see_empty e f) = true
settles (doze e) = true
settles (rouse_message e f) = true
settles (rouse_stop e f) = true
settles (recheck e f) = true
settles (sleep e f) = true
settles (wake_notified e f) = true
settles (wake_other e) = false
settles (read_notified e) = true
settles (pass_on e) = true

pub data Settles (s : Scene) : Scene → Type 0 where
  here : Settles s s
  onward : {t u : Scene} → Settles s t → (step : Step t u) → settles step ≡ true → Settles s u
