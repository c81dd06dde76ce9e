-- ===== src/Thread/Tests.antt =====
-- A thread with two messages, which lie at the end and the start of the array, and two timers.
use gemini_nos.Base.{◌+◌, ◌*◌, arith, true, false, none}
use gemini_nos.Timer.{TimerHeap}
use gemini_nos.Timer.Order.{IsHeap}
use gemini_nos.Thread.{poll_timeout}
use gemini_nos.Thread.Sleep.{Timeout, poll_timeout_lem}

abbrev two_timers : TimerHeap
two_timers = record {
  nodes = λ i. i;
  size = 2;
  capacity = 128;
  timer = λ t. record {
    expire_at_ms = 500 + t * 20;
    interval_ms = 0;
    is_periodic = false;
    callback = none;
    is_running = true;
    owned = true;
  };
}

two_timers-IsHeap : IsHeap two_timers
two_timers-IsHeap c p q = ground arith

poll_timeout_example : Timeout two_timers 300 (poll_timeout two_timers 300)
poll_timeout_example = poll_timeout_lem two_timers 300 two_timers-IsHeap
