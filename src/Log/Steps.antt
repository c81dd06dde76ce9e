-- ===== src/Log/Steps.antt =====
-- The two indices of the ring: in step, each message is the next that is printed; a message that is
-- dropped puts them out of step.
use gemini_nos.Base.{
  ℕ, ◌+◌, ◌%◌, ◌^◌, ◌≤◌, ◌<◌, ◌≡◌, ◌≢◌, refl, sym, ap, ◌∙◌, arith, false, none, some, ltb,
  if◌then◌else◌, lt→ltb, update, update_self, update_ne, update-update, add32, ◌∷◌,
}
use gemini_nos.Log.{
  Log, LogEntry, Line, empty, ready, log_buffer_size, known, filter_of, log, consume, fill,
  claim_slot, next_slot,
}

-- The consumer stands at the next entry to be written, and it is empty.
pub record InStep (g : Log) : Type 0 where
  pub same : g.read_idx ≡ g.write_idx
  pub free : (g.ring (g.write_idx % log_buffer_size)).state ≡ empty

abbrev pub line_of : Log → ℕ → ℕ → ℕ → Line
line_of g level comp_id message = record {
  level = level;
  name = if known g comp_id then some ((g.comp_info comp_id).name) else none;
  message = message;
}

-- The log with the message in entry `i`.
abbrev stored : Log → ℕ → ℕ → ℕ → ℕ → Log
stored g i level comp_id message = record g {
  ring =
      update g.ring i
        (record { level = level; comp_id = comp_id; message = message; state = ready });
  write_idx = add32 g.write_idx 1;
}

-- The log with one message more dropped.
abbrev dropped : Log → Log
dropped g = record g {
  write_idx = add32 g.write_idx 1;
  dropped_count = (g.dropped_count + 1) % 2 ^ 64;
}

module _ (g : Log) (level comp_id message : ℕ) where
  log_below : level < filter_of g comp_id → log g level comp_id message ≡ g
  unfolding log
  log_below low = rw (lt→ltb level (filter_of g comp_id) low)

  module _ (high : filter_of g comp_id ≤ level) where
    passes : ltb level (filter_of g comp_id) ≡ false
    passes = ground arith

    log-stored :
        (g.ring (g.write_idx % log_buffer_size)).state ≡ empty
        → log g level comp_id message
          ≡ stored g (g.write_idx % log_buffer_size) level comp_id message
    unfolding log claim_slot next_slot fill
    log-stored free =
        rw (passes, free, log)
          (ap (λ r. record g { ring = r; write_idx = add32 g.write_idx 1 })
            (update-update g.ring (g.write_idx % log_buffer_size) _ _))

    log_full :
        (g.ring (g.write_idx % log_buffer_size)).state ≡ ready
        → log g level comp_id message ≡ dropped g
    unfolding log claim_slot next_slot
    log_full full = rw (passes, full, log)

consume_ready :
    (g : Log) (e : LogEntry)
    → g.ring (g.read_idx % log_buffer_size) ≡ e
    → e.state ≡ ready
    → consume g
      ≡ some (record g {
        ring = update g.ring (g.read_idx % log_buffer_size) (record e { state = empty });
        read_idx = add32 g.read_idx 1;
        out = line_of g e.level e.comp_id e.message ∷ g.out;
      })
unfolding consume
consume_ready g e here done =
    rw (ap (λ k. k.state) here ∙ done, consume)
      (ap
        (λ (k : LogEntry). some (record g {
          ring = update g.ring (g.read_idx % log_buffer_size) (record k { state = empty });
          read_idx = add32 g.read_idx 1;
          out = line_of g k.level k.comp_id k.message ∷ g.out;
        }))
        here)

consume_idle : (g : Log) → (g.ring (g.read_idx % log_buffer_size)).state ≡ empty → consume g ≡ none
unfolding consume
consume_idle g idle = rw (idle, consume)

-- With the indices in step, a message below the filter level that holds for its component changes
-- nothing. Any other is the next line that the consumer prints, under the name of its component;
-- its entry is then empty, the two indices are equal again, and nothing counts as dropped.
pub consume-log :
    (g : Log) (level comp_id message : ℕ)
    → InStep g
    → (level < filter_of g comp_id → log g level comp_id message ≡ g)
      × (filter_of g comp_id ≤ level
          → (g' : Log) × (consume (log g level comp_id message) ≡ some g')
            × (g'.out ≡ line_of g level comp_id message ∷ g.out)
            × (g'.read_idx ≡ g'.write_idx)
            × ((g'.ring (g.write_idx % log_buffer_size)).state ≡ empty)
            × (g'.dropped_count ≡ g.dropped_count))
consume-log g level comp_id message v = (
  log_below g level comp_id message,
  λ high. (
    record h {
      ring = update h.ring (h.read_idx % log_buffer_size) (record e { state = empty });
      read_idx = add32 h.read_idx 1;
      out = line_of g level comp_id message ∷ g.out;
    },
    ap consume (log-stored g level comp_id message high v.free)
        ∙ consume_ready h e (rw v.same (update_self g.ring i e)) refl,
    refl,
    ap (λ k. add32 k 1) v.same,
    rw v.same (ap (λ k. k.state) (update_self h.ring i (record e { state = empty }))),
    refl,
  ),
)
  where
    i : ℕ
    i = g.write_idx % log_buffer_size

    e : LogEntry
    e = record { level = level; comp_id = comp_id; message = message; state = ready }

    h : Log
    h = stored g i level comp_id message

-- With the two indices equal, a message that passes the filter and finds its entry still full is
-- dropped and counted, and the ring stays as it is, but the index of the writers moves on all the
-- same: the two name different entries afterwards.
pub log_drops :
    (g : Log) (level comp_id message : ℕ)
    → filter_of g comp_id ≤ level
    → (g.ring (g.write_idx % log_buffer_size)).state ≡ ready
    → g.read_idx ≡ g.write_idx
    → let g' = log g level comp_id message in
      (g'.dropped_count ≡ (g.dropped_count + 1) % 2 ^ 64)
      × (g'.ring ≡ g.ring)
      × (g'.read_idx % log_buffer_size ≢ g'.write_idx % log_buffer_size)
log_drops g level comp_id message high full same =
    rw (log_full g level comp_id message high full)
      (refl, refl, λ e. absurd (omega (arith, e, same)))

-- When the two indices name different entries, both empty, a message that passes the filter is stored,
-- and the consumer does not print it: it finds nothing before and after.
pub consume_stalls :
    (g : Log) (level comp_id message : ℕ)
    → g.read_idx % log_buffer_size ≢ g.write_idx % log_buffer_size
    → (g.ring (g.read_idx % log_buffer_size)).state ≡ empty
    → (g.ring (g.write_idx % log_buffer_size)).state ≡ empty
    → filter_of g comp_id ≤ level
    → (consume g ≡ none)
      × (((log g level comp_id message).ring (g.write_idx % log_buffer_size)).state ≡ ready)
      × (consume (log g level comp_id message) ≡ none)
consume_stalls g level comp_id message apart idle free high = (
  consume_idle g idle,
  rw stores (ap (λ e. e.state) (update_self g.ring (g.write_idx % log_buffer_size) _)),
  rw stores (consume_idle _ (ap (λ e. e.state) (update_ne g.ring _ (λ e. apart (sym e))) ∙ idle)),
)
  where
    stores :
        log g level comp_id message ≡ stored g (g.write_idx % log_buffer_size) level comp_id message
    stores = log-stored g level comp_id message high free
