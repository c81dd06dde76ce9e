-- ===== src/Ipc.antt =====
-- The connections to other nodes of src/infra/nos_ipc_p2p.c: a pool of at most 16, each with a
-- circular queue of buffers to send. Names and paths are C strings, and `none` for `NULL` where they
-- are arguments; `fd` is `none` for -1. The answers of the sockets are arguments: what each `send`
-- returns, and the descriptor that `connect` gives. Each function holds the lock of the connection.
pub mod Queued
pub mod Backpressure
pub mod Shared
pub mod Receive
mod Tests
use gemini_nos.Base.{
  strncpy, zero, suc, ℕ, ◌+◌, ◌-◌, ◌%◌, Bool, true, false, ◌&&◌, ◌||◌, not, Option, none, some, ltb,
  leb, ◌==◌, if◌then◌else◌, update, Status, nos_ok, nos_err, nos_err_busy, List, [], ◌∷◌,
}
use gemini_nos.Base.Scan.{scan}
use gemini_nos.Memory.{BufPtr, shared, Memory, retain, release, buffer_at, write_buffer}
use gemini_nos.Shm.{block_header_size, buffer_size, ptr_to_offset}
use gemini_nos.Mpsc.{MpscQueue, Nodes, Dequeued, empty, spins, taken, dequeue, get_remote_queue}
use gemini_nos.Buffer.{Buffer}
use gemini_nos.Mpsc
use gemini_nos.Ring.{used}

abbrev pub tx_queue_size : ℕ
tx_queue_size = 1024

abbrev pub max_remote_conns : ℕ
max_remote_conns = 16

abbrev pub tx_high_watermark : ℕ
tx_high_watermark = 900

abbrev pub tx_low_watermark : ℕ
tx_low_watermark = 200

-- `strcpy(conn->node_name, "Unknown")` and `strcpy(conn->uds_path, "Passive")`
abbrev pub unknown_name : ℕ
unknown_name = 0x6E776F6E6B6E55

abbrev pub passive_path : ℕ
passive_path = 0x65766973736150

-- `nos_ipc_conn_t`. Its `owner_thread` is the management thread.
pub record Conn : Type 0 where
  pub node_name : ℕ
  pub uds_path : ℕ
  pub fd : Option ℕ
  pub tx_queue : ℕ → BufPtr
  pub head : ℕ
  pub tail : ℕ
  pub is_connected : Bool
  pub is_congested : Bool

-- The counters of `nos_ipc_stats_t` (include/nos_node_priv.h) that sending moves.
pub record Stats : Type 0 where
  pub tx_packets : ℕ
  pub tx_bytes : ℕ
  pub tx_errors : ℕ
  pub dropped_full : ℕ

-- What `send` returns: the whole message went, the socket is full, or the link is broken.
pub data SendResult : Type 0 where
  sent again broken : SendResult

-- A connection with what its functions also change.
pub record Link : Type 0 where
  pub conn : Conn
  pub stats : Stats
  pub memory : Memory

-- `nos_service_msg_t` lengths of the buffers, `sizeof(nos_service_msg_t) + payload_len`.
abbrev pub Lengths : Type 0
Lengths = BufPtr → ℕ

-- A message went out.
pub advance : Lengths → Link → Link
advance full_len l =
    let buf = l.conn.tx_queue l.conn.head in
    record l {
      stats = record (l.stats) {
        tx_packets = l.stats.tx_packets + 1;
        tx_bytes = l.stats.tx_bytes + full_len buf;
      };
      memory = release l.memory (some buf);
      conn = record (l.conn) { head = (l.conn.head + 1) % tx_queue_size };
    }

-- The link is broken.
pub disconnect : Link → Link
disconnect l = record l {
  stats = record (l.stats) { tx_errors = l.stats.tx_errors + 1 };
  conn = record (l.conn) { fd = none; is_connected = false; is_congested = false };
}

-- The end of the loop: the queue is drained, and the congestion may be over.
pub relieve : Link → Link
relieve l =
    let c = l.conn in
    if c.is_congested && ltb (used tx_queue_size c.head c.tail) tx_low_watermark
    then record l { conn = record c { is_congested = false } }
    else l

-- `nos_ipc_process_tx`, along the answers of the socket. An answer is asked for each message in the
-- queue; that the list ends earlier stands for no more answers, as when the socket is full.
pub process_tx : Lengths → List SendResult → Link → Link
unfolding advance disconnect relieve
process_tx full_len [] l = if l.conn.head == l.conn.tail then relieve l else l
process_tx full_len (sent ∷ answers) l =
    let rest = process_tx full_len answers (advance full_len l) in
    if l.conn.head == l.conn.tail then relieve l else rest
process_tx full_len (again ∷ answers) l = if l.conn.head == l.conn.tail then relieve l else l
process_tx full_len (broken ∷ answers) l =
    if l.conn.head == l.conn.tail then relieve l else disconnect l

-- `conn->tx_queue[conn->tail] = buf` and the steps round it.
abbrev pub append : Link → BufPtr → Link
append l buf = record l {
  memory = retain l.memory (some buf);
  conn = record (l.conn) {
    tx_queue = update l.conn.tx_queue l.conn.tail buf;
    tail = (l.conn.tail + 1) % tx_queue_size;
  };
}

-- `nos_ipc_send_hello`. `hello` is the buffer that `nos_buffer_alloc` gave for the handshake, with the
-- reference of this function, or `none` if it failed.
pub send_hello : Option BufPtr → Link → Link
send_hello none l = l
send_hello (some buf) l =
    let next_tail = (l.conn.tail + 1) % tx_queue_size in
    let queued = if next_tail == l.conn.head then l else append l buf in
    record queued { memory = release queued.memory (some buf) }

-- The reconnection step of `nos_ipc_send_enqueue_ex`: `connected` is the descriptor of a socket that
-- `connect` succeeded on.
pub reconnect : Option ℕ → Option ℕ → Option BufPtr → Link → Link
unfolding send_hello
reconnect path none hello l = l
reconnect none (some fd) hello l = l
reconnect (some path) (some fd) hello l = elim (l.conn.fd) [
  | some old ↦ l
  | none ↦
      if path == passive_path
      then l
      else send_hello hello (record l {
        conn = record (l.conn) { fd = some fd; is_connected = true; is_congested = false };
      })
]

abbrev pub drop_full : Link → Link
drop_full l = record l { stats = record (l.stats) { dropped_full = l.stats.dropped_full + 1 } }

-- The steps of `nos_ipc_send_enqueue_ex` after the reconnection: the check for backpressure, the
-- queue, and an attempt to send.
pub enqueue : Lengths → List SendResult → BufPtr → Link → Status × Link
unfolding process_tx
enqueue full_len answers buf l =
    let c = l.conn in
    if not c.is_connected
    then (nos_err, l)
    else if ltb tx_high_watermark (used tx_queue_size c.head c.tail)
    then (nos_err_busy, drop_full (record l { conn = record c { is_congested = true } }))
    else if (c.tail + 1) % tx_queue_size == c.head
    then (nos_err_busy, drop_full l)
    else (nos_ok, process_tx full_len answers (append l buf))

-- `nos_ipc_send_enqueue_ex` on the connection that `get_or_create_conn` gave.
pub send_enqueue_ex :
    Lengths → Option ℕ → Option ℕ → Option BufPtr → List SendResult → BufPtr → Link → Status × Link
unfolding reconnect enqueue
send_enqueue_ex full_len path connected hello answers buf l =
    enqueue full_len answers buf (reconnect path connected hello l)

-- `g_remote_conns` and `g_remote_conn_count`
pub record ConnPool : Type 0 where
  pub conn : ℕ → Conn
  pub count : ℕ

-- `strcmp` with an argument that is not `NULL`
abbrev pub is_same : ℕ → Option ℕ → Bool
is_same kept none = false
is_same kept (some text) = kept == text

-- What a new connection keeps of an argument, or the text that it gets for `NULL`.
abbrev pub text_of : ℕ → ℕ → Option ℕ → ℕ
text_of n otherwise none = otherwise
text_of n otherwise (some text) = strncpy n text

-- `get_or_create_conn`; `none` is `NULL`. A connection keeps 31 bytes of the name and 107 of the path,
-- and they are compared with the whole arguments.
pub get_or_create_conn : ConnPool → Option ℕ → Option ℕ → Option ℕ × ConnPool
get_or_create_conn p name path =
    elim (scan (λ i. is_same (p.conn i).node_name name || is_same (p.conn i).uds_path path) 0
      p.count) [
        | some i ↦ (some i, p)
        | none ↦ if leb max_remote_conns p.count then (none, p) else (
          some p.count,
          record {
            conn = update p.conn p.count (record (p.conn p.count) {
              node_name = text_of 31 unknown_name name;
              uds_path = text_of 107 passive_path path;
              fd = none;
              head = 0;
              tail = 0;
              is_connected = false;
              is_congested = false;
            });
            count = p.count + 1;
          },
        )
      ]

-- `nos_ipc_stats_clear`
pub stats_clear : Stats → Stats
stats_clear s = record { tx_packets = 0; tx_bytes = 0; tx_errors = 0; dropped_full = 0 }
