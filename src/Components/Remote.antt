-- ===== src/Components/Remote.antt =====
-- The benchmark between two nodes: src/components/perf/remote_ping.c and remote_pong.c. Their
-- messages have a payload, whose length the test asks for.
use gemini_nos.Base.{
  ℕ, ◌+◌, ◌<◌, ◌≡◌, true, false, Option, none, some, ltb, leb, ◌==◌, if◌then◌else◌, add32, u32_mod,
  refl, arith,
}
use gemini_nos.Components.{Message, envelope, word, msg_size}
use gemini_nos.Components.Perf.{Reply}

abbrev svc_remote_ping : ℕ
svc_remote_ping = 113

abbrev svc_remote_pong : ℕ
svc_remote_pong = 114

-- `rping_ctx_t`
pub record RpingCtx : Type 0 where
  pub start_time_ns : ℕ
  pub target_count : ℕ
  pub current_count : ℕ
  pub payload_size : ℕ

-- The buffer that both ask for: a block of the shared segment if it is large enough for the
-- message, and a chunk of the pool if it is not, or none is left. `shm` and `pool` tell what the
-- two give for a size.
pub grant : (ℕ → Option Message) → (ℕ → Option Message) → ℕ → Option Message
grant shm pool size =
    if leb size 4096 then elim (shm size) [ some buf ↦ some buf | none ↦ pool size ] else pool size

-- `memset` of the payload
pub fill : ℕ → ℕ → Message → Message
fill byte len buf = record buf { payload = λ i. if ltb i len then byte else buf.payload i }

-- `send_ping`
pub send_rping : ℕ → (ℕ → Option Message) → (ℕ → Option Message) → RpingCtx → Option Message
unfolding grant fill envelope
send_rping id shm pool ctx = elim (grant shm pool (add32 msg_size ctx.payload_size)) [
  | none ↦ none
  | some buf ↦
      some (fill 0xAA ctx.payload_size (envelope svc_remote_pong id 2001 ctx.payload_size buf))
]

-- `comp_on_msg` of remote_ping.c, at time `now`
pub rping_on_msg :
    ℕ → ℕ → (ℕ → Option Message) → (ℕ → Option Message) → RpingCtx → Message → Reply RpingCtx
unfolding send_rping
rping_on_msg now id shm pool ctx msg =
    if msg.msg_code == 3001
    then (let asked : RpingCtx = record {
      start_time_ns = now;
      target_count = if leb 4 msg.payload_len then word msg.payload 0 else 10000;
      current_count = 0;
      payload_size = if leb 8 msg.payload_len then word msg.payload 4 else 0;
    } in
        record { ctx = asked; sent = send_rping id shm pool asked; complete = false })
    else if msg.msg_code == 2002
    then (let counted : RpingCtx = record ctx { current_count = add32 ctx.current_count 1 } in
        if ltb counted.current_count ctx.target_count
        then record { ctx = counted; sent = send_rping id shm pool counted; complete = false }
        else record { ctx = counted; sent = none; complete = true })
    else record { ctx = ctx; sent = none; complete = false }

-- `comp_on_msg` of remote_pong.c
pub rpong_on_msg : ℕ → (ℕ → Option Message) → (ℕ → Option Message) → Message → Option Message
unfolding grant fill envelope
rpong_on_msg id shm pool msg =
    if msg.msg_code == 2001
    then elim (grant shm pool (add32 msg_size msg.payload_len)) [
      | none ↦ none
      | some buf ↦
          some (fill 0xBB msg.payload_len (envelope svc_remote_ping id 2002 msg.payload_len buf))
    ]
    else none

module _ (shm pool shm' pool' : ℕ → Option Message) (now : ℕ) (ctx : RpingCtx) where
  -- A test between nodes that stands at an answer before its last: where both nodes have a buffer
  -- for the message, in the shared segment or in the pool, the ping is answered by a message for
  -- the ping component, whose payload is as long as the ping's and all of bytes 0xBB, and which
  -- counts as one more answer, after which the test has not ended.
  pub rping_answered :
      (a b : Message)
      → grant shm pool (add32 msg_size ctx.payload_size) ≡ some a
      → grant shm' pool' (add32 msg_size ctx.payload_size) ≡ some b
      → ctx.current_count + 1 < ctx.target_count
      → ctx.target_count < u32_mod
      → (ping pong : Message) × (send_rping 12 shm pool ctx ≡ some ping)
        × (rpong_on_msg 13 shm' pool' ping ≡ some pong)
        × (pong.dst_service ≡ svc_remote_ping)
        × (pong.payload_len ≡ ctx.payload_size)
        × ((i : ℕ) → i < ctx.payload_size → pong.payload i ≡ 0xBB)
        × ((rping_on_msg now 12 shm pool ctx pong).ctx.current_count ≡ ctx.current_count + 1)
        × ((rping_on_msg now 12 shm pool ctx pong).complete ≡ false)
  unfolding send_rping rpong_on_msg rping_on_msg fill envelope
  rping_answered a b given given' more fits = (
    fill 0xAA ctx.payload_size (envelope svc_remote_pong 12 2001 ctx.payload_size a),
    fill 0xBB ctx.payload_size (envelope svc_remote_ping 13 2002 ctx.payload_size b),
    rw (given, send_rping) refl,
    rw (given', rpong_on_msg) refl,
    refl,
    refl,
    λ i h. ground (arith, h),
    ground (arith, more, fits),
    ground (arith, more, fits),
  )
