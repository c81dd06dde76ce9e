-- ===== src/Wakeup/Tests.antt =====
-- A thread that a first message reaches after it has found its queue empty and before it sets
-- `is_sleeping`: the double check finds the message. A second comes when the thread sleeps.
use gemini_nos.Base.{◌≡◌, refl, arith, Bool}
use gemini_nos.Wakeup.{
  Scene, asleep, processing, initial, queue, see_awake, see_message, see_empty, take, finish_fast,
  poll, doze, rouse_message, recheck, sleep, Reach, start, later, Settles,
}
use gemini_nos.Wakeup.Safety.{sleeper_wakes}

abbrev late : Scene
late = record initial { place = asleep; is_sleeping = Bool.true; waiting = 1; checking = 1 }

-- The thread after the double check has found the first message.
abbrev alerted : Scene
alerted = record initial { waiting = 1 }

alerted-Reach : Reach alerted
alerted-Reach =
    later
      (later (later (later (later start (see_empty refl refl)) queue) (see_awake 0 refl refl))
        (doze refl))
      (rouse_message refl (omega arith))

-- The thread at the top of its loop, with the message processed.
processed-Reach : Reach initial
processed-Reach =
    later
      (later
        (later (later alerted-Reach (see_message refl (omega arith))) (take Bool.true 0 refl refl))
        (finish_fast refl refl))
      (poll refl)

late-Reach : Reach late
late-Reach =
    later
      (later
        (later (later (later processed-Reach (see_empty refl refl)) (doze refl))
          (recheck refl refl))
        (sleep refl refl))
      queue

sleeper_wakes_example :
    (t : Scene) × Settles late t × (t.place ≡ processing Bool.false) × (t.waiting ≡ 1)
sleeper_wakes_example = sleeper_wakes late-Reach refl (omega arith)
