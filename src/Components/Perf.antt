-- ===== src/Components/Perf.antt =====
-- The benchmark inside a node: src/components/perf/ping.c and pong.c. The two exchange one message
-- until as many answers have come as the test asks for.
pub mod Counting
pub mod Stalling
use gemini_nos.Base.{
  ℕ, zero, suc, ◌+◌, Bool, true, false, Option, none, some, ltb, leb, ◌==◌, if◌then◌else◌, add32,
}
use gemini_nos.Components.{Message, envelope, word}

abbrev pub svc_ping : ℕ
svc_ping = 111

abbrev pub svc_pong : ℕ
svc_pong = 112

-- `ping_ctx_t`
pub record PingCtx : Type 0 where
  pub start_time_ns : ℕ
  pub target_count : ℕ
  pub current_count : ℕ

-- `send_ping`, of component `id`
pub send_ping : ℕ → Option Message → Option Message
unfolding envelope
send_ping id none = none
send_ping id (some buf) = some (envelope svc_pong id 2001 0 buf)

-- What a handler of the one who measures comes to: its state, the message it sends, and whether it
-- reports the end of the test.
pub record Reply (C : Type 0) : Type 0 where
  pub ctx : C
  pub sent : Option Message
  pub complete : Bool

-- `comp_on_msg` of ping.c, at time `now`. `buf` is what the pool gives if it is asked.
pub ping_on_msg : ℕ → ℕ → Option Message → PingCtx → Message → Reply PingCtx
unfolding send_ping
ping_on_msg now id buf ctx msg =
    if msg.msg_code == 3001
    then record {
      ctx = record {
        start_time_ns = now;
        target_count = if leb 4 msg.payload_len then word msg.payload 0 else 100000;
        current_count = 0;
      };
      sent = send_ping id buf;
      complete = false;
    }
    else if msg.msg_code == 2002
    then (let count = add32 ctx.current_count 1 in
        if ltb count ctx.target_count
        then record {
          ctx = record ctx { current_count = count };
          sent = send_ping id buf;
          complete = false;
        }
        else record { ctx = record ctx { current_count = count }; sent = none; complete = true })
    else record { ctx = ctx; sent = none; complete = false }

-- `comp_on_msg` of pong.c
pub pong_on_msg : ℕ → Option Message → Message → Option Message
unfolding envelope
pong_on_msg id none msg = none
pong_on_msg id (some buf) msg =
    if msg.msg_code == 2001 then some (envelope svc_ping id 2002 0 buf) else none

-- The two handlers composed, to follow a test through both: no function of the source does this, since
-- the scheduler delivers among all components and has any number of messages on their way. The state
-- is that of the two components of a node, the message on its way, if there is one, and how many deliveries
-- (`turn`) and ends of tests (`completed`) came before. No queue refuses a message that is sent.
pub record Exchange : Type 0 where
  pub ctx : PingCtx
  pub in_flight : Option Message
  pub turn : ℕ
  pub completed : ℕ

-- The delivery of the message on its way to the provider of its service. `alloc` tells which
-- buffer the pool gives at each turn.
pub deliver : (ℕ → Option Message) → ℕ → Exchange → Exchange
unfolding ping_on_msg pong_on_msg
deliver alloc now x = elim x.in_flight [
  | none ↦ x
  | some msg ↦
      if msg.dst_service == svc_ping
      then (let r = ping_on_msg now 10 (alloc x.turn) x.ctx msg in
          record {
            ctx = r.ctx;
            in_flight = r.sent;
            turn = x.turn + 1;
            completed = if r.complete then x.completed + 1 else x.completed;
          })
      else if msg.dst_service == svc_pong
      then record x { in_flight = pong_on_msg 11 (alloc x.turn) msg; turn = x.turn + 1 }
      else record x { in_flight = none }
]

pub deliveries : (ℕ → Option Message) → ℕ → ℕ → Exchange → Exchange
unfolding deliver
deliveries alloc now zero x = x
deliveries alloc now (suc n) x = deliveries alloc now n (deliver alloc now x)
