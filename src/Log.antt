-- ===== src/Log.antt =====
-- The log of src/infra/log/nos_log.c: a ring of 1024 entries with many writers and one consumer
-- thread, and the filter levels. A message stands for what `vsnprintf` and the clock leave in an
-- entry, a name for a string; 0 is `NULL`. `out` is what the consumer has printed.
pub mod Steps
mod Tests
use gemini_nos.Base.{
  strncpy, ℕ, zero, suc, ◌+◌, ◌%◌, ◌^◌, Bool, true, false, ◌&&◌, ◌||◌, Option, none, some, ltb, leb,
  ◌==◌, if◌then◌else◌, update, add32, List, [], ◌∷◌,
}

abbrev pub log_buffer_size : ℕ
log_buffer_size = 1024

abbrev pub max_comp_id : ℕ
max_comp_id = 256

-- `ready` of an entry: 0, 1 and 2.
pub data Ready : Type 0 where
  empty writing ready : Ready

-- `nos_log_entry_t`
pub record LogEntry : Type 0 where
  pub level : ℕ
  pub comp_id : ℕ
  pub message : ℕ
  pub state : Ready

-- `nos_comp_info_t`
pub record CompInfo : Type 0 where
  pub name : ℕ
  pub filter_level : ℕ
  pub is_registered : Bool

-- A line of output: level, name of the component or `none` for "System", and message.
pub record Line : Type 0 where
  pub level : ℕ
  pub name : Option ℕ
  pub message : ℕ

-- `nos_log_context_t`, and the output
pub record Log : Type 0 where
  pub ring : ℕ → LogEntry
  pub write_idx : ℕ
  pub read_idx : ℕ
  pub global_filter_level : ℕ
  pub comp_info : ℕ → CompInfo
  pub dropped_count : ℕ
  pub out : List Line

-- The component of an id, if it is registered.
abbrev pub known : Log → ℕ → Bool
known g comp_id = ltb 0 comp_id && ltb comp_id max_comp_id && (g.comp_info comp_id).is_registered

-- `filter_level` of `nos_log_impl`
pub filter_of : Log → ℕ → ℕ
filter_of g comp_id =
    if known g comp_id then (g.comp_info comp_id).filter_level else g.global_filter_level

-- `atomic_fetch_add(&write_idx, 1) % LOG_BUFFER_SIZE`
pub next_slot : Log → ℕ × Log
next_slot g = (g.write_idx % log_buffer_size, record g { write_idx = add32 g.write_idx 1 })

-- `atomic_compare_exchange_strong` of an empty entry; `none` is its failure.
pub claim_slot : Log → ℕ → Option Log
claim_slot g i = elim ((g.ring i).state) [
  | empty ↦ some (record g { ring = update g.ring i (record (g.ring i) { state = writing }) })
  | writing ↦ none
  | ready ↦ none
]

-- The entry is filled and marked.
pub fill : Log → ℕ → ℕ → ℕ → ℕ → Log
fill g i level comp_id message = record g {
  ring =
      update g.ring i
        (record { level = level; comp_id = comp_id; message = message; state = ready });
}

-- `nos_log_impl`, with no step of another thread between its own
pub log : Log → ℕ → ℕ → ℕ → Log
unfolding filter_of next_slot claim_slot fill
log g level comp_id message =
    if ltb level (filter_of g comp_id)
    then g
    else let (i, g') = next_slot g in
      elim (claim_slot g' i) [
        | none ↦ record g' { dropped_count = (g'.dropped_count + 1) % 2 ^ 64 }
        | some g'' ↦ fill g'' i level comp_id message
      ]

-- A round of `nos_log_consumer_thread`; `none` is a round that finds nothing and sleeps.
pub consume : Log → Option Log
consume g =
    let i = g.read_idx % log_buffer_size in
    let e = g.ring i in
    let line : Line = record {
      level = e.level;
      name = if known g e.comp_id then some ((g.comp_info e.comp_id).name) else none;
      message = e.message;
    } in
    elim (e.state) [
      | empty ↦ none
      | writing ↦ none
      | ready ↦ some (record g {
        ring = update g.ring i (record e { state = empty });
        read_idx = add32 g.read_idx 1;
        out = line ∷ g.out;
      })
    ]

-- `nos_set_level_impl`. `message` is what it logs of itself, at the level INFO.
pub set_level : Log → ℕ → ℕ → Log
unfolding log
set_level g level message = log (record g { global_filter_level = level }) 1 0 message

-- `nos_set_comp_level_impl`
pub set_comp_level : Log → ℕ → ℕ → ℕ → Log
unfolding log
set_comp_level g comp_id level message =
    if (comp_id == 0) || leb max_comp_id comp_id
    then g
    else log
        (record g {
          comp_info =
              update g.comp_info comp_id (record (g.comp_info comp_id) { filter_level = level });
        })
        1 0 message

-- `nos_log_set_comp_info`, which keeps 31 bytes of the name; 0 is `NULL`.
pub set_comp_info : Log → ℕ → ℕ → Log
set_comp_info g comp_id name =
    if (comp_id == 0) || leb max_comp_id comp_id || (name == 0) then g else record g {
      comp_info = update g.comp_info comp_id (record {
        name = strncpy 31 name;
        filter_level = g.global_filter_level;
        is_registered = true;
      });
    }

-- `nos_log_get_stats`
pub get_stats : Log → ℕ
get_stats g = g.dropped_count

-- The log with the flags that start and stop its consumer, and whether the thread runs.
pub record Service : Type 0 where
  pub body : Log
  pub keep_running : Bool
  pub initialized : Bool
  pub consuming : Bool

-- `nos_log_init`
pub init : Service → Service
init s = if s.initialized then s else record s {
  body = record (s.body) { ring = λ i. clear (ltb i log_buffer_size) ((s.body).ring i) };
  keep_running = true;
  initialized = true;
  consuming = true;
}
  where
    clear : Bool → LogEntry → LogEntry
    clear true e = record e { state = empty }
    clear false e = e

-- The consumer from the time at which it is told to stop: it prints until it finds nothing. `fuel`
-- bounds the rounds.
pub drain : ℕ → Log → Log
unfolding consume
drain zero g = g
drain (suc fuel) g = elim (consume g) [ none ↦ g | some g' ↦ drain fuel g' ]

-- `nos_log_deinit`, with `pthread_join` of the consumer
pub deinit : ℕ → Service → Service
unfolding drain
deinit fuel s =
    if s.initialized
    then record s {
      body = drain fuel s.body;
      keep_running = false;
      initialized = false;
      consuming = false;
    }
    else s
