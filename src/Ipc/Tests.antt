-- ===== src/Ipc/Tests.antt =====
-- A connection with three messages, which lie at the end and the start of the array, and a thread that
-- hears from a node for the first time.
use gemini_nos.Base.{ℕ, arith, true, false, some, none, [], ◌∷◌}
use gemini_nos.Memory.{pooled}
use gemini_nos.Memory.Tests.{node_memory}
use gemini_nos.Ipc.{Conn, Link, Lengths, sent, again, broken, process_tx, enqueue}
use gemini_nos.Ipc.Queued.{InRange, pending, IsTransmitted, process_tx_lem}
use gemini_nos.Ipc.Backpressure.{Outcome, enqueue-Outcome}
use gemini_nos.Ipc.Receive.{Peer, greet}
use gemini_nos.Ipc.Receive.Greeting.{Greeted, greet_reaches}

abbrev wrapped : Conn
wrapped = record {
  node_name = 5;
  uds_path = 6;
  fd = some 12;
  tx_queue = λ i. pooled 0 0;
  head = 1023;
  tail = 2;
  is_connected = true;
  is_congested = false;
}

abbrev line : Link
line = record {
  conn = wrapped;
  stats = record { tx_packets = 0; tx_bytes = 0; tx_errors = 0; dropped_full = 0 };
  memory = node_memory;
}

wrapped-InRange : InRange wrapped
wrapped-InRange = record { head_in = omega arith; tail_in = omega arith }

abbrev header_only : Lengths
header_only p = 28

process_tx_example :
    IsTransmitted header_only
      (sent ∷ sent ∷ broken ∷ [])
      (pending wrapped)
      line
      (process_tx header_only (sent ∷ sent ∷ broken ∷ []) line)
process_tx_example = process_tx_lem header_only (sent ∷ sent ∷ broken ∷ []) line wrapped-InRange

send_enqueue_example :
    Outcome header_only
      (sent ∷ again ∷ [])
      (pooled 0 0)
      line
      (enqueue header_only (sent ∷ again ∷ []) (pooled 0 0) line)
send_enqueue_example =
    enqueue-Outcome header_only (sent ∷ again ∷ []) (pooled 0 0) line wrapped-InRange

abbrev lone : Peer ℕ
lone = record {
  pool = record { conn = λ i. wrapped; count = 1 };
  poller = record {
    fd_entries = λ i. record { fd = 7; callback = 2; arg = 0 };
    fd_count = 1;
    watched = λ fd. some 0;
  };
  closed = [];
  stats = record { rx_packets = 0; rx_bytes = 0; rx_errors = 0; buffer_alloc_fails = 0 };
  memory = node_memory;
  local_queue = none;
  rest = 0;
}

greet_example : Greeted 7 9 lone (greet true none 7 9 lone)
greet_example = greet_reaches true 7 9 lone (omega arith)
