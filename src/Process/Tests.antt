-- ===== src/Process/Tests.antt =====
-- The end of a node with two components.
use gemini_nos.Base.{ℕ, ◌<◌, ◌≡◌, refl, arith, true, false, none, some, [], ◌++◌}
use gemini_nos.Kv.Create.{new_table}
use gemini_nos.Memory.{pooled, release_all}
use gemini_nos.Memory.Tests.{node_memory}
use gemini_nos.Node.Tests.{pair}
use gemini_nos.Pool.{deinit_pool}
use gemini_nos.Process.{Process, stop_threads, release_comps, shutdown}
use gemini_nos.Process.Shutdown.{waiting, places, shutdown_lem}
use gemini_nos.Queue.Fifo.{InRange, messages}
use gemini_nos.Thread.{Thread}

-- A thread with two messages in its queue.
abbrev ended : Thread
ended = record {
  thread_id = 1;
  roster = record { components = λ i. i; component_count = 1 };
  poller = record {
    fd_entries = λ i. record { fd = 7; callback = 2; arg = 0 };
    fd_count = 1;
    watched = λ fd. some 0;
  };
  inbox = record {
    msg_queue = λ i. pooled 0 0;
    head = 1023;
    tail = 1;
    is_sleeping = false;
    notified = 1;
  };
  timer_heap = record {
    nodes = λ i. i;
    size = 0;
    capacity = 128;
    timer = λ t. record {
      expire_at_ms = 0;
      interval_ms = 0;
      is_periodic = false;
      callback = none;
      is_running = false;
      owned = false;
    };
  };
  stop_requested = true;
}

abbrev node_process : Process
node_process = record {
  node = pair;
  mgmt = ended;
  workers = λ _. ended;
  memory = node_memory;
  database = record { table = λ _. new_table 32 4 128; name = λ i. i; count = 2 };
  log = record { body = pair.log; keep_running = true; initialized = true; consuming = true };
  closed = [];
}

-- The threads end with a message or two left, and the second component stops a timer.
abbrev join : Process → Process
join p = record p { node = pair; mgmt = ended; workers = λ _. ended; closed = [] }

abbrev stop_comp : ℕ → Process → Process
stop_comp c p = record p { mgmt = record (p.mgmt) { stop_requested = true } }

-- The process once its components are stopped.
abbrev stopped : Process
stopped = release_comps (λ _. true) stop_comp 2 (join (stop_threads node_process))

stopped-InRange : InRange stopped.mgmt.inbox
unfolding release_comps
stopped-InRange = record { head_in = omega arith; tail_in = omega arith }

workers-InRange : (j : ℕ) → j < stopped.node.worker_count → InRange (stopped.workers j).inbox
unfolding release_comps
workers-InRange j p = record { head_in = omega arith; tail_in = omega arith }

shutdown_example :
    let r = shutdown join (λ _. true) stop_comp 5 node_process in
    let m =
      release_all
        (messages stopped.mgmt.inbox ++ waiting stopped.workers 0 stopped.node.worker_count)
        stopped.memory in
    (r.closed ≡ places (λ i. i) 0 2 ++ [])
    × (r.memory ≡ record m { pool = deinit_pool m.pool })
    × (messages r.mgmt.inbox ≡ [])
    × ((j : ℕ) → j < stopped.node.worker_count → messages (r.workers j).inbox ≡ [])
shutdown_example =
    shutdown_lem (λ _. true) stop_comp (λ c p. (refl, refl)) join 5 node_process stopped-InRange
      workers-InRange
