-- ===== src/Components/Stateful.antt =====
-- The components model_2 to model_5 of src/components. model_2 keeps its counter in the key-value
-- store and finds it there when it is loaded again; the others answer or count what they receive.
-- A component's name is the list of its bytes without the 0 at its end, and a table that is `NULL`
-- is `none`.
pub mod Recovery
use gemini_nos.Base.{
  ℕ, zero, suc, ◌+◌, ◌-◌, ◌*◌, ◌/◌, ◌%◌, ◌^◌, Bool, true, false, Option, none, some, leb, ltb, ◌==◌,
  if◌then◌else◌, add32, Status, nos_ok, List, [], ◌∷◌, ◌++◌,
}
use gemini_nos.Kv.{Table, Notice, put, get}
use gemini_nos.Components.{Message, envelope, word, ipc_magic}

-- `char key[32] = {0}; strncpy(key, name, 31)`
pub padded : ℕ → List ℕ → List ℕ
padded zero name = []
padded (suc n) [] = 0 ∷ padded n []
padded (suc zero) (c ∷ name) = 0 ∷ []
padded (suc (suc n)) (c ∷ name) = c ∷ padded (suc n) name

pub state_key : List ℕ → List ℕ
unfolding padded
state_key name = padded 32 name

-- The bytes of an `int` in memory.
pub int_bytes : ℕ → ℕ → ℕ
int_bytes n i = n / 256 ^ i % 256

pub int_key : ℕ → List ℕ
unfolding int_bytes
int_key n = int_bytes n 0 ∷ int_bytes n 1 ∷ int_bytes n 2 ∷ int_bytes n 3 ∷ []

-- `comp_ctx_t` of model_2.c, with the tables themselves
pub record Counted : Type 0 where
  pub state_table : Option Table
  pub test_table : Option Table
  pub local_counter : ℕ

-- `nos_kv_put_auto` of an `int`, on a table that may be `NULL`, with the calls of subscribers
pub put_int : Option Table → List ℕ → ℕ → Option Table × List Notice
unfolding int_bytes
put_int none key n = (none, [])
put_int (some t) key n =
    let (status, t', notices) = put t (some key) (some (int_bytes n)) 4 in (some t', notices)

-- `comp_on_msg` of model_2.c; `none` is a component without its state.
pub on_msg : List ℕ → Option Counted → Option Counted × List Notice
unfolding put_int state_key int_key
on_msg name none = (none, [])
on_msg name (some ctx) =
    let counter = add32 ctx.local_counter 1 in
    let (state, notices) = put_int ctx.state_table (state_key name) counter in
    let (test, others) = put_int ctx.test_table (int_key counter) counter in
    (
      some (record { state_table = state; test_table = test; local_counter = counter }),
      notices ++ others,
    )

-- `status == NOS_OK`
is_ok : Status → Bool
is_ok nos_ok = true
is_ok _ = false

-- `comp_init` of model_2.c, for a state that `calloc` gave and the tables that
-- `nos_kv_table_create_auto` gave: `nos_kv_get` reads the counter into the state, which is 0
-- before.
pub init : List ℕ → Option Table → Option Table → Counted
unfolding state_key put_int is_ok
init name none test = record { state_table = none; test_table = test; local_counter = 0 }
init name (some t) test =
    let (status, out, len) = get t (state_key name) (λ _. 0) 4 in
    if is_ok status
    then record { state_table = some t; test_table = test; local_counter = word out 0 }
    else record {
      state_table = (put_int (some t) (state_key name) 0).0;
      test_table = test;
      local_counter = 0;
    }

-- `comp_on_msg` of model_3.c: the rounds of its loop, each of which logs a message
pub spam : Message → ℕ
spam msg =
    if msg.msg_code == 3002 then (if leb 4 msg.payload_len then word msg.payload 0 else 2000) else 0

abbrev svc_mgmt : ℕ
svc_mgmt = 101

-- The answer of model_1 and model_4 to the management service, in the buffer that the pool gives:
-- the payload length is the one that the buffer holds.
pub mgmt_reply : ℕ → Option Message → Message → Option Message
mgmt_reply id none msg = none
mgmt_reply id (some buf) msg =
    if msg.msg_code == 1001
    then some (record buf {
      magic = ipc_magic;
      dst_service = svc_mgmt;
      src_component = id;
      msg_code = 1002;
    })
    else none

-- `comp_on_msg` of model_4.c: the counter, and what it sends
pub model_4_on_msg : ℕ → Option Message → ℕ → Message → ℕ × Option Message
unfolding mgmt_reply
model_4_on_msg id buf counter msg = (add32 counter 1, mgmt_reply id buf msg)

-- `comp_on_msg` of model_5.c
pub model_5_on_msg : ℕ → ℕ
model_5_on_msg counter = add32 counter 1
