-- ===== src/Components/Perf/Counting.antt =====
-- How a test of the two components goes on and ends.
use gemini_nos.Base.{ℕ, ◌+◌, ◌<◌, ◌≡◌, Option, none, some, leb, ◌==◌, if◌then◌else◌, u32_mod, arith}
use gemini_nos.Components.{Message, envelope, word}
use gemini_nos.Components.Perf.{
  svc_ping, svc_pong, Exchange, send_ping, ping_on_msg, pong_on_msg, deliver, deliveries,
}

-- A test of `target` answers that stands at `count`, with a ping on its way.
abbrev pub pinged : ℕ → ℕ → ℕ → ℕ → ℕ → Message → Exchange
pinged now target count turn completed buf = record {
  ctx = record { start_time_ns = now; target_count = target; current_count = count };
  in_flight = some (envelope svc_pong 10 2001 0 buf);
  turn = turn;
  completed = completed;
}

abbrev ended : ℕ → ℕ → ℕ → ℕ → ℕ → Exchange
ended now target count turn completed = record {
  ctx = record { start_time_ns = now; target_count = target; current_count = count };
  in_flight = none;
  turn = turn;
  completed = completed;
}

module _ (alloc : ℕ → Option Message) (now : ℕ) where
  -- The pong behind a ping, and the ping that it brings.
  pub goes_on :
      (start target count turn completed : ℕ) (a b c : Message)
      → alloc turn ≡ some b
      → alloc (turn + 1) ≡ some c
      → count + 1 < target
      → target < u32_mod
      → deliveries alloc now 2 (pinged start target count turn completed a)
        ≡ pinged start target (count + 1) (turn + 2) completed c
  unfolding deliveries deliver ping_on_msg pong_on_msg send_ping envelope
  goes_on start target count turn completed a b c first second more fits =
      ground (arith, first, second, more, fits)

-- The number of answers that a request asks for, and that a test takes.
abbrev pub asked : Message → ℕ
asked msg = if leb 4 msg.payload_len then word msg.payload 0 else 100000

abbrev pub answers : Message → ℕ
answers msg = if asked msg == 0 then 1 else asked msg

abbrev pub IsRequest : Message → Type 0
IsRequest msg = (msg.dst_service ≡ svc_ping) × (msg.msg_code ≡ 3001)

module _ (alloc : ℕ → Option Message) (now : ℕ) (x : Exchange) (msg : Message) where
  pub starts :
      (a : Message)
      → x.in_flight ≡ some msg
      → IsRequest msg
      → alloc x.turn ≡ some a
      → deliver alloc now x ≡ pinged now (asked msg) 0 (x.turn + 1) x.completed a
  unfolding deliver ping_on_msg send_ping
  starts a e (at_ping, code) first = ground (arith, e, at_ping, code, first)
