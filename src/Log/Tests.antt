-- ===== src/Log/Tests.antt =====
-- Concrete logs: one that has just started, one that is full, and one that has been emptied after a
-- message was dropped.
use gemini_nos.Base.{ℕ, ◌≤◌, ◌<◌, ◌≡◌, refl, arith, false, none, some, [], ◌∷◌}
use gemini_nos.Log.{Log, Ready, empty, ready, log, consume, filter_of}
use gemini_nos.Log.Steps.{line_of, consume-log, consume_stalls}

-- A log whose entries are all in one state.
abbrev uniform : Ready → ℕ → ℕ → Log
uniform state r w = record {
  ring = λ i. record { level = 0; comp_id = 0; message = i; state = state };
  write_idx = w;
  read_idx = r;
  global_filter_level = 1;
  comp_info = λ _. record { name = 0; filter_level = 0; is_registered = false };
  dropped_count = 0;
  out = [];
}

consume-log_example :
    (2 < filter_of (uniform empty 5 5) 0 → log (uniform empty 5 5) 2 0 77 ≡ uniform empty 5 5)
    × (filter_of (uniform empty 5 5) 0 ≤ 2
        → (g' : Log) × (consume (log (uniform empty 5 5) 2 0 77) ≡ some g')
          × (g'.out ≡ line_of (uniform empty 5 5) 2 0 77 ∷ [])
          × (g'.read_idx ≡ g'.write_idx)
          × ((g'.ring 5).state ≡ empty)
          × (g'.dropped_count ≡ 0))
consume-log_example = consume-log (uniform empty 5 5) 2 0 77 (record { same = refl; free = refl })

consume_stalls_example :
    (consume (uniform empty 3 4) ≡ none)
    × (((log (uniform empty 3 4) 2 0 77).ring 4).state ≡ ready)
    × (consume (log (uniform empty 3 4) 2 0 77) ≡ none)
unfolding filter_of
consume_stalls_example =
    consume_stalls (uniform empty 3 4) 2 0 77 (omega arith) refl refl (omega arith)
