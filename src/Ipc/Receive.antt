-- ===== src/Ipc/Receive.antt =====
-- What arrives from other nodes: `nos_ipc_recv_handler` and the callbacks of src/infra/nos_ipc_p2p.c
-- that lead to it, all on the thread of the management. What the sockets and `epoll_ctl` answer is an
-- argument, and so are the messages.
pub mod Greeting
use gemini_nos.Base.{
  strncpy, ℕ, ◌+◌, ◌&&◌, Bool, true, false, Option, none, some, ◌==◌, if◌then◌else◌, update, add32,
  Status, nos_ok, nos_err, List, [], ◌∷◌,
}
use gemini_nos.Memory.{BufPtr, pooled, Memory, release}
use gemini_nos.Pool.{alloc}
use gemini_nos.Poller.{Poller, add_fd, add_fd_ex, remove_fd}
use gemini_nos.Mpsc.{MpscQueue}
use gemini_nos.Ipc.{
  Conn, ConnPool, Link, Lengths, SendResult, Stats, process_tx, get_or_create_conn,
}
use gemini_nos.Ipc.Shared.{receive_shared}

-- `NOS_IPC_MAGIC`, `NOS_IPC_MSG_HELLO`, `NOS_IPC_MSG_SHM_EVENT` and `sizeof(nos_service_msg_t)`
abbrev pub ipc_magic : ℕ
ipc_magic = 0x4E4F

abbrev pub msg_hello : ℕ
msg_hello = 0xFFFF0001

abbrev pub msg_shm_event : ℕ
msg_shm_event = 0xFFFF0003

abbrev pub header_size : ℕ
header_size = 28

-- The names of the callbacks
abbrev pub event_handler_id : ℕ
event_handler_id = 1

abbrev pub passive_handler_id : ℕ
passive_handler_id = 2

abbrev pub accept_handler_id : ℕ
accept_handler_id = 3

-- What `recv` with `MSG_PEEK` shows: nothing yet, the end of the stream or an error, or a header with
-- its `magic` and `payload_len`.
pub data Peeked : Type 0 where
  nothing_yet ended : Peeked
  header : ℕ → ℕ → Peeked

-- The message that `recv` then takes: whether it had its full length, its `msg_code`, and the name
-- that a handshake carries.
pub record Taken : Type 0 where
  pub in_full : Bool
  pub msg_code : ℕ
  pub remote_name : ℕ

-- The counters of `nos_ipc_stats_t` that receiving moves.
pub record RxStats : Type 0 where
  pub rx_packets : ℕ
  pub rx_bytes : ℕ
  pub rx_errors : ℕ
  pub buffer_alloc_fails : ℕ

-- What the handlers share: the connections, the descriptors of the management thread, those closed
-- so far, and the queue of this node in the shared segment, if there is one. `rest` is the state of
-- the rest of the node.
pub record Peer {ℓ} (S : Type ℓ) : Type ℓ where
  pub pool : ConnPool
  pub poller : Poller
  pub closed : List ℕ
  pub stats : RxStats
  pub memory : Memory
  pub local_queue : Option MpscQueue
  pub rest : S

abbrev pub or_old {ℓ} : {A : Type ℓ} → A → Option A → A
or_old a none = a
or_old a (some b) = b

abbrev pub set_conn : ConnPool → ℕ → Conn → ConnPool
set_conn p i c = record p { conn = update p.conn i c }

-- `nos_service_msg_send`, on the memory and the rest of the node
abbrev pub SendOn {ℓ} : Type ℓ → Type ℓ
SendOn S = BufPtr → Memory → S → Memory × S

module _ {ℓ} {S : Type ℓ} where
  -- The link is dropped: the descriptor leaves the thread and is closed, and its connection, if it
  -- is known, is down.
  pub close_link : Option ℕ → ℕ → Peer S → Peer S
  close_link conn fd p =
      let p' = record p {
        poller = or_old p.poller (remove_fd (some p.poller) fd).1;
        closed = fd ∷ p.closed;
      } in
      elim conn [
        | none ↦ p'
        | some i ↦ record p' {
          pool = set_conn p.pool i (record (p.pool.conn i) { fd = none; is_connected = false });
        }
      ]

  -- What a handshake on a passive connection makes of the connection that `get_or_create_conn` gave
  -- for its name. `accepted` is the answer of `epoll_ctl`.
  pub promote : Bool → ℕ → Peer S → Option ℕ × ConnPool → Peer S
  promote accepted fd p (none, pool) = record p { pool = pool }
  promote accepted fd p (some i, pool) =
      let poller = or_old p.poller (remove_fd (some p.poller) fd).1 in
      record p {
        pool = set_conn pool i (record (pool.conn i) { fd = some fd; is_connected = true });
        poller = or_old poller (add_fd_ex (some poller) fd event_handler_id i accepted).1;
      }

  -- A handshake: a known connection gets the name, of which it keeps 31 bytes, and a passive one becomes the connection of that
  -- name.
  pub greet : Bool → Option ℕ → ℕ → ℕ → Peer S → Peer S
  unfolding promote
  greet accepted (some i) fd name p = record p {
    pool = set_conn p.pool i (record (p.pool.conn i) { node_name = strncpy 31 name });
  }
  greet accepted none fd name p = promote accepted fd p (get_or_create_conn p.pool (some name) none)

  module _ (send_on : SendOn S) (base fuel : ℕ) where
    -- An event of the shared segment
    pub drain_shared : Peer S → Peer S
    drain_shared p = elim p.local_queue [
      | none ↦ p
      | some q ↦
          let (q', memory, rest, packets) =
            receive_shared send_on base fuel q p.memory p.rest p.stats.rx_packets in
          record p {
            local_queue = some q';
            memory = memory;
            rest = rest;
            stats = record (p.stats) { rx_packets = packets };
          }
    ]

    -- A message that has come in full, by its code.
    pub handle : Bool → Option ℕ → ℕ → BufPtr → ℕ → Taken → Peer S → Peer S
    unfolding greet drain_shared
    handle accepted conn fd buf full_len t p =
        if t.msg_code == msg_hello
        then greet accepted conn fd t.remote_name p
        else if t.msg_code == msg_shm_event
        then drain_shared p
        else let (memory, rest) = send_on buf p.memory p.rest in
          record p {
            memory = memory;
            rest = rest;
            stats = record (p.stats) {
              rx_packets = p.stats.rx_packets + 1;
              rx_bytes = p.stats.rx_bytes + full_len;
            };
          }

    -- The handler once it has a buffer for the message.
    pub take_in : Bool → Option ℕ → ℕ → BufPtr → ℕ → Taken → Peer S → Peer S
    unfolding handle
    take_in accepted conn fd buf full_len t p =
        let p' =
          if t.in_full
          then handle accepted conn fd buf full_len t p
          else record p { stats = record (p.stats) { rx_errors = p.stats.rx_errors + 1 } } in
        record p' { memory = release p'.memory (some buf) }

    -- `nos_ipc_recv_handler`; `conn` is the place of the connection in the pool.
    pub recv_handler : Bool → Peeked → Taken → ℕ → Option ℕ → Peer S → Peer S
    unfolding close_link take_in
    recv_handler accepted nothing_yet t fd conn p = p
    recv_handler accepted ended t fd conn p = close_link conn fd p
    recv_handler accepted (header magic payload_len) t fd conn p =
        if magic == ipc_magic
        then elim (alloc p.memory.pool (add32 header_size payload_len) 0) [
          | none ↦ record p {
            stats = record (p.stats) { buffer_alloc_fails = p.stats.buffer_alloc_fails + 1 };
          }
          | some ((i, j), pool) ↦
              take_in accepted conn fd (pooled i j) (header_size + payload_len) t
                (record p { memory = record (p.memory) { pool = pool } })
        ]
        else close_link conn fd p

    -- `nos_ipc_event_handler`, on connection `i`; sending moves the counters `tx`.
    pub event_handler :
        Lengths → List SendResult → Bool → Peeked → Taken → ℕ → ℕ → Peer S → Stats → Peer S × Stats
    unfolding recv_handler
    event_handler full_len answers accepted peeked t fd i p tx =
        let l =
          process_tx full_len answers
            (record { conn = p.pool.conn i; stats = tx; memory = p.memory }) in
        (
          recv_handler accepted peeked t fd (some i)
              (record p { pool = set_conn p.pool i l.conn; memory = l.memory }),
          l.stats,
        )

    -- `nos_ipc_passive_handler`
    pub passive_handler : Bool → Peeked → Taken → ℕ → Peer S → Peer S
    unfolding recv_handler
    passive_handler accepted peeked t fd p = recv_handler accepted peeked t fd none p

  -- `nos_ipc_accept_handler`, with the descriptor that `accept` gave, if it gave one. Its argument is
  -- the thread, named 0.
  pub accept_handler : Bool → Option ℕ → Peer S → Peer S
  accept_handler accepted none p = p
  accept_handler accepted (some fd) p = record p {
    poller = or_old p.poller (add_fd_ex (some p.poller) fd passive_handler_id 0 accepted).1;
  }

  -- `nos_ipc_init`: the descriptor of the listening socket, if there is one, and whether `bind` and
  -- `listen` succeed on it.
  pub init : Bool → Option ℕ → Bool → Bool → Peer S → Status × Peer S
  init accepted none binds listens p = (nos_err, p)
  init accepted (some fd) binds listens p =
      if binds && listens
      then (let (status, poller) = add_fd (some p.poller) fd accept_handler_id 0 accepted in
          (status, record p { poller = or_old p.poller poller }))
      else (nos_err, record p { closed = fd ∷ p.closed })
