-- ===== src/Wakeup/Safety.antt =====
-- No wakeup is lost.
use gemini_nos.Base.{◌+◌, ◌-◌, ◌<◌, ◌≡◌, refl, arith, true, false, dec_lt}
use gemini_nos.Wakeup.{
  processing, drowsy, rechecked, asleep, Scene, Step, queue, see_awake, see_sleeping, write,
  request_stop, write_stop, leave, see_message, take, finish, finish_fast, poll, poll_notified,
  see_empty, doze, rouse_message, rouse_stop, recheck, sleep, wake_notified, wake_other,
  read_notified, pass_on, initial, Reach, start, later, settles, Settles, here, onward,
}

-- The flag tells where the thread stands, and whoever has made it right to wake a thread that sleeps
-- is about to do so, or has.
pub record Inv (s : Scene) : Type 0 where
  pub flag_drowsy : s.place ≡ drowsy → s.is_sleeping ≡ true
  pub flag_rechecked : s.place ≡ rechecked → s.is_sleeping ≡ true
  pub flag_asleep : s.place ≡ asleep → s.is_sleeping ≡ true
  pub message_due : s.place ≡ rechecked → 0 < s.waiting → 0 < s.notified + s.checking + s.writing
  pub message : s.place ≡ asleep → 0 < s.waiting → 0 < s.notified + s.checking + s.writing
  pub stop : s.place ≡ asleep → s.stop_requested ≡ true → 0 < s.notified + s.stopping

initial-Inv : Inv initial
initial-Inv = record {
  flag_drowsy = λ e. absurd (cc);
  flag_rechecked = λ e. absurd (cc);
  flag_asleep = λ e. absurd (cc);
  message_due = λ e h. absurd (cc);
  message = λ e h. absurd (cc);
  stop = λ e h. absurd (cc);
}

-- Senders act while the thread stands where it is.
Step-Inv : {s t : Scene} → Step s t → Inv s → Inv t
Step-Inv queue v = ground arith
Step-Inv (see_awake n e f) v = ground arith
Step-Inv (see_sleeping n e f) v = ground arith
Step-Inv (write n e) v = ground arith
Step-Inv request_stop v = ground arith
Step-Inv (write_stop n e) v = ground arith
Step-Inv (leave e f) v = ground arith
Step-Inv (see_message e f) v = ground arith
Step-Inv (take fast n e f) v = ground arith
Step-Inv (finish_fast e f) v = ground arith
Step-Inv (finish e f) v = ground arith
Step-Inv (poll e) v = ground arith
Step-Inv (poll_notified e f) v = ground arith
Step-Inv (see_empty e f) v = ground arith
Step-Inv (doze e) v = ground arith
Step-Inv (rouse_message e f) v = ground arith
Step-Inv (rouse_stop e f) v = ground arith
Step-Inv (recheck e f) v = ground arith
Step-Inv (sleep e f) v = ground arith
Step-Inv (wake_notified e f) v = ground arith
Step-Inv (wake_other e) v = ground arith
Step-Inv (read_notified e) v = ground arith
Step-Inv (pass_on e) v = ground arith

Reach-Inv : {s : Scene} → Reach s → Inv s
Reach-Inv start = initial-Inv
Reach-Inv (later r st) = Step-Inv st (Reach-Inv r)

-- The scene once the thread has read `notify_fd`.
abbrev roused : Scene → Scene
roused s = record s { place = processing false; is_sleeping = false; notified = 0 }

wakes :
    {s : Scene} (t : Scene) → Settles s t → t.place ≡ asleep → 0 < t.notified → Settles s (roused t)
unfolding settles
wakes t r e h = onward (onward r (wake_notified e h) refl) (read_notified refl) refl

-- The thread never sleeps for good on a message: whenever it sleeps in a reachable scene while a
-- message waits, what is under way suffices to wake it: steps among which no message is queued or
-- taken, nobody requests a stop, and no timer or other descriptor ends `epoll_wait`, lead to where it
-- processes the queue, with the same messages.
pub sleeper_wakes :
    {s : Scene}
    → Reach s
    → s.place ≡ asleep
    → 0 < s.waiting
    → (t : Scene) × Settles s t × (t.place ≡ processing false) × (t.waiting ≡ s.waiting)
unfolding settles
sleeper_wakes {s} r e h = elim (dec_lt 0 s.notified) [
  | yes rung ↦ (roused s, wakes s here e rung, refl, refl)
  | no quiet ↦ elim (dec_lt 0 s.writing) [
    | yes due ↦ (
      roused rings,
      wakes rings (onward here (write (s.writing - 1) (omega arith)) refl) e (omega arith),
      refl,
      refl,
    )
    | no idle ↦ (
      roused both,
      wakes both
          (onward
            (onward here
              (see_sleeping (s.checking - 1) (omega (arith, v.message e h)) (v.flag_asleep e)) refl)
            (write s.writing refl) refl)
          e (omega arith),
      refl,
      refl,
    )
  ]
]
  where
    v : Inv s
    v = Reach-Inv r

    rings : Scene
    rings = record s { writing = s.writing - 1; notified = s.notified + 1 }

    both : Scene
    both = record s { checking = s.checking - 1; notified = s.notified + 1 }

-- A request to stop is not slept over: whenever the thread sleeps in a reachable scene after a
-- request, its `notify_fd` has been written to, or somebody who made a request is about to.
pub stop_is_seen :
    {s : Scene} → Reach s → s.place ≡ asleep → s.stop_requested ≡ true → 0 < s.notified + s.stopping
stop_is_seen r e h = (Reach-Inv r).stop e h
