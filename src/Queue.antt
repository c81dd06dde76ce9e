-- ===== src/Queue.antt =====
-- The message queue of a thread (src/core/nos_scheduler.c): a circular array of buffers with a flag
-- that says whether the thread sleeps. The queue's lock is held throughout each function.
pub mod Fifo
mod Tests
use gemini_nos.Base.{
  ℕ, zero, suc, ◌+◌, ◌%◌, Bool, true, false, Option, none, some, ◌==◌, if◌then◌else◌, update,
  Status, nos_ok, nos_err, nos_err_busy,
}
use gemini_nos.Memory.{BufPtr, Memory, retain, release}

abbrev pub max_queue_size : ℕ
max_queue_size = 1024

-- The part of `nos_thread_t` that messages go through. `notified` counts the writes to `notify_fd`.
pub record Inbox : Type 0 where
  pub msg_queue : ℕ → BufPtr
  pub head : ℕ
  pub tail : ℕ
  pub is_sleeping : Bool
  pub notified : ℕ

-- `nos_transport_local_send`; `none` is a thread that is `NULL`.
pub local_send : Memory → BufPtr → Option Inbox → Status × Memory × Option Inbox
local_send m buf none = (nos_err, m, none)
local_send m buf (some q) =
    let next_tail = (q.tail + 1) % max_queue_size in
    if next_tail == q.head then (nos_err_busy, m, some q) else (
      nos_ok,
      retain m (some buf),
      some (record q {
        msg_queue = update q.msg_queue q.tail buf;
        tail = next_tail;
        notified = if q.is_sleeping then q.notified + 1 else q.notified;
      }),
    )

-- The locked part of a round of `process_thread_messages`: the oldest message, if there is one.
pub take_message : Inbox → Option (BufPtr × Inbox)
take_message q =
    if q.head == q.tail
    then none
    else some (q.msg_queue q.head, record q { head = (q.head + 1) % max_queue_size })

-- What the lookup of the service and the provider's `on_msg` do with a message. They act on the memory,
-- the rest `S` of the node and the queue of the thread itself, to which a handler may send.
abbrev pub Handler {ℓ} : Type ℓ → Type ℓ
Handler S = BufPtr → Memory → S → Inbox → Memory × S × Inbox

-- `process_thread_messages`; `fuel` bounds the rounds. What other threads send meanwhile counts as
-- sent by `deliver`.
pub process_messages {ℓ} : {S : Type ℓ} → Handler S → ℕ → Memory → S → Inbox → Memory × S × Inbox
unfolding take_message
process_messages deliver zero m s q = (m, s, q)
process_messages deliver (suc fuel) m s q = elim (take_message q) [
  | none ↦ (m, s, q)
  | some (buf, q') ↦
      let (m', s', q'') = deliver buf m s q' in
      process_messages deliver fuel (release m' (some buf)) s' q''
]
