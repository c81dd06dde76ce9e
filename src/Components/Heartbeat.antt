-- ===== src/Components/Heartbeat.antt =====
-- src/components/model_1: a timer that sends a message to another component, and a subscription to
-- the state of model_2 in the key-value store.
pub mod Watched
use gemini_nos.Base.{
  ℕ, Bool, true, false, Option, none, some, Status, nos_ok, nos_err, List, [], ◌∷◌, ◌==◌,
  if◌then◌else◌,
}
use gemini_nos.Timer.{TimerHeap, timer_create, timer_start, timer_delete}
use gemini_nos.Kv.{Sub, Table}
use gemini_nos.Kv.Subs.{subscribe, unsubscribe}
use gemini_nos.Components.{Message, envelope, word}
use gemini_nos.Components.Stateful.{mgmt_reply, state_key}

abbrev svc_routing_v4 : ℕ
svc_routing_v4 = 102

-- `comp_ctx_t`: the timer, and whether the table was found.
pub record Watch : Type 0 where
  pub heartbeat_timer : Option ℕ
  pub comp2_state_table : Bool

-- `heartbeat_callback`, of component `id`
pub heartbeat_callback : ℕ → Option Message → Option Message
unfolding envelope
heartbeat_callback id none = none
heartbeat_callback id (some buf) = some (envelope svc_routing_v4 id 1001 0 buf)

-- `on_comp2_state_change`: the counter that it logs
pub on_comp2_state_change : ℕ → (ℕ → ℕ) → Option ℕ
on_comp2_state_change val_len val = if val_len == 4 then some (word val 0) else none

-- `comp_on_msg`
pub on_msg : ℕ → Option Message → Message → Option Message
on_msg id buf msg = mgmt_reply id buf msg

-- The name "Comp-2", and the key made of it.
abbrev pub comp_2 : List ℕ
comp_2 = 67 ∷ 111 ∷ 109 ∷ 112 ∷ 45 ∷ 50 ∷ []

-- What the component and the parts that it uses are after a call.
pub record Watching : Type 0 where
  pub watch : Watch
  pub timers : TimerHeap
  pub state_table : Option Table

-- The end of `comp_start`: the subscription, on the table that `nos_kv_table_create_auto` gave.
pub watch_state : Option Table → Sub → Option Table
watch_state none sub = none
watch_state (some t) sub = some (subscribe t (state_key comp_2) sub).1

pub leave_state : Option Table → Sub → Option Table
leave_state none sub = none
leave_state (some t) sub = some (unsubscribe t (state_key comp_2) sub).1

pub is_table : Option Table → Bool
is_table none = false
is_table (some t) = true

-- `comp_start`, at time `now`. `slot` is the timer that `calloc` gives, and `callback` stands for
-- `heartbeat_callback`.
pub start : ℕ → Option ℕ → ℕ → Sub → TimerHeap → Option Table → Watching
unfolding watch_state
start now none callback sub timers table = record {
  watch = record { heartbeat_timer = none; comp2_state_table = is_table table };
  timers = timers;
  state_table = watch_state table sub;
}
start now (some slot) callback sub timers table = record {
  watch = record { heartbeat_timer = some slot; comp2_state_table = is_table table };
  timers = (timer_start (timer_create timers slot (some callback)) now slot 10000 true).1;
  state_table = watch_state table sub;
}

-- `comp_stop`, before it frees the component's state
pub stop : Sub → Watching → Watching
unfolding leave_state
stop sub w = record {
  watch = record { heartbeat_timer = none; comp2_state_table = false };
  timers = elim (w.watch.heartbeat_timer) [
    | none ↦ w.timers
    | some slot ↦ timer_delete none w.timers slot
  ];
  state_table = if w.watch.comp2_state_table then leave_state w.state_table sub else w.state_table;
}
