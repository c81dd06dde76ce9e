-- ===== src/Components/Tests.antt =====
-- Runs of the sample components.
use gemini_nos.Base.{
  ◌%◌, ◌≡◌, inr, arith, none, some, ◌==◌, if◌then◌else◌, add32, u32_mod, List, ◌∷◌, ◌++◌, false,
}
use gemini_nos.Timer.{TimerHeap}
use gemini_nos.Kv.{Table, Notice, put}
use gemini_nos.Kv.Create.{new_table}
use gemini_nos.Kv.Create.Shape.{new_table-IsNew, new_table-room}
use gemini_nos.Components.{Message}
use gemini_nos.Components.Perf.{Exchange}
use gemini_nos.Components.Stateful.{Counted, init, on_msg, state_key, int_bytes}
use gemini_nos.Components.Stateful.Recovery.{
  IsSynced, put-IsSynced, there, messages, counter_recovered,
}
use gemini_nos.Components.Heartbeat.{comp_2, start, on_comp2_state_change}
use gemini_nos.Components.Heartbeat.Watched.{watcher_told}

-- A buffer as the pool gives it, and a request for two answers.
abbrev blank : Message
blank = record {
  magic = 0;
  version = 0;
  dst_service = 0;
  src_component = 0;
  msg_code = 0;
  seq = 0;
  flags = 0;
  payload_len = 0;
  payload = λ _. 0;
}

abbrev request : Message
request = record blank {
  dst_service = 111;
  msg_code = 3001;
  payload_len = 4;
  payload = λ i. if i == 0 then 2 else 0;
}

abbrev asked : Exchange
asked = record {
  ctx = record { start_time_ns = 0; target_count = 0; current_count = 0 };
  in_flight = some request;
  turn = 0;
  completed = 0;
}

-- The state table as the components create it.
abbrev states : Table
states = new_table 32 4 128

counter_recovered_example :
    (ctx : Counted) × (after : Table) × (messages comp_2 3 (some (init comp_2 (some states) none))
      ≡ some ctx)
    × (ctx.local_counter ≡ 3 % u32_mod)
    × (ctx.state_table ≡ some after)
    × ((init comp_2 (some after) none).local_counter ≡ 3 % u32_mod)
counter_recovered_example =
    counter_recovered comp_2 (new_table-IsNew 32 4 128 (omega arith)).shape
      (omega (arith, (new_table-room 32 4 128).0))
      ((new_table-IsNew 32 4 128 (omega arith)).empty (state_key comp_2))
      (omega (arith, (new_table-room 32 4 128).1)) none none 3

-- The state table after Comp-2 has been initialised.
abbrev inhabited : Table
inhabited = (put states (some (state_key comp_2)) (some (int_bytes 0)) 4).1

inhabited-IsSynced : IsSynced comp_2 inhabited 0
inhabited-IsSynced =
    put-IsSynced comp_2 (new_table-IsNew 32 4 128 (omega arith)).shape
      (omega (arith, (new_table-room 32 4 128).0)) 0
      (inr (omega (arith, (new_table-room 32 4 128).1)))

abbrev no_timers : TimerHeap
no_timers = record {
  nodes = λ _. 0;
  size = 0;
  capacity = 64;
  timer = λ _. record {
    expire_at_ms = 0;
    interval_ms = 0;
    is_periodic = false;
    callback = none;
    is_running = false;
    owned = false;
  };
}

watcher_told_example :
    let w =
      start 5000
        (some 1)
        4198400
        (record { notify = 4198500; arg = 1 })
        no_timers
        (some inhabited) in
    let r =
      on_msg comp_2
        (some (record { state_table = w.state_table; test_table = none; local_counter = 0 })) in
    ((before after : List Notice) × (r.1
        ≡ before
          ++ record {
            sub = record { notify = 4198500; arg = 1 };
            key = state_key comp_2;
            val = some (int_bytes (add32 0 1));
            val_len = 4;
          }
            ∷ after))
    × (on_comp2_state_change 4 (int_bytes (add32 0 1)) ≡ some (add32 0 1))
watcher_told_example =
    watcher_told inhabited-IsSynced.shape (there comp_2 inhabited-IsSynced) 5000 (some 1) 4198400
      (record { notify = 4198500; arg = 1 }) no_timers none 0 inhabited-IsSynced.wide
