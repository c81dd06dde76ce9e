-- ===== src/Ipc/Shared.antt =====
-- Sending to another node through the shared segment, and receiving from it: the functions of
-- src/infra/nos_ipc_p2p.c for the queues of src/infra/nos_shm.c.
use gemini_nos.Base.{
  zero, suc, ℕ, ◌+◌, ◌-◌, Option, none, some, ◌==◌, if◌then◌else◌, update, Status, nos_ok, nos_err,
}
use gemini_nos.Memory.{BufPtr, shared, Memory, retain, release, buffer_at, write_buffer}
use gemini_nos.Shm.{block_header_size, buffer_size, ptr_to_offset}
use gemini_nos.Mpsc.{MpscQueue, Nodes, Dequeued, empty, spins, taken, dequeue, get_remote_queue}
use gemini_nos.Buffer.{Buffer}
use gemini_nos.Mpsc

-- The end of `nos_ipc_send_enqueue_shm`, by what `nos_shm_mpsc_enqueue` returned: the other node is
-- woken, or the reference for the queue is taken back.
pub settle : (Memory → Memory) → ℕ → Memory → Nodes → Nodes → Status → Status × Memory × Nodes
settle wake o m nodes nodes' nos_ok = (nos_ok, wake m, nodes')
settle wake o m nodes nodes' status = (status, release m (some (shared o)), nodes)

-- `nos_ipc_send_enqueue_shm` of the buffer behind the block at an offset; `none` is `NULL`. `wake`
-- stands for the event that goes out through the socket, a pool buffer that `nos_ipc_send_enqueue_ex`
-- takes. The segment is mapped at `base`.
pub send_enqueue_shm :
    (Memory → Memory) → ℕ → Nodes → ℕ → Option ℕ → Memory → Status × Memory × Nodes
unfolding settle
send_enqueue_shm wake base nodes node none m = (nos_err, m, nodes)
send_enqueue_shm wake base nodes node (some o) m =
    if (m.heap.block o).buf.flags == 1
    then elim (get_remote_queue nodes node) [
      | none ↦ (nos_err, m, nodes)
      | some i ↦
          let offset = ptr_to_offset base (base + o + block_header_size) in
          if offset == 0
          then (nos_err, m, nodes)
          else let q = nodes.rx_queue i in
            let (status, q') = Mpsc.enqueue (some q) offset in
            settle wake o (retain m (some (shared o))) nodes
              (record nodes { rx_queue = update nodes.rx_queue i (or_same q q') }) status
    ]
    else (nos_err, m, nodes)
  where
    or_same : MpscQueue → Option MpscQueue → MpscQueue
    or_same q none = q
    or_same q (some q') = q'

-- The buffer behind a block, with its pointers set for a segment that this process maps at `base`.
abbrev pub localise : ℕ → ℕ → Buffer → Buffer
localise base o b =
    let raw = base + o + block_header_size + buffer_size in
    record b { raw_data = raw; data_ptr = raw + b.headroom }

-- The branch of `nos_ipc_recv_handler` for an event of the shared segment: every offset in the queue
-- of this node is taken, its buffer sent on to its service, and the reference of the queue released.
-- `send_on` is `nos_service_msg_send`, on the memory and the state `S` of the rest of the node; the
-- count is `stats.rx_packets`. `fuel` bounds the rounds; a queue whose oldest slot is still to be
-- written is left as it is, where the code spins.
pub receive_shared {ℓ} :
    {S : Type ℓ}
    → (BufPtr → Memory → S → Memory × S)
    → ℕ
    → ℕ
    → MpscQueue
    → Memory
    → S
    → ℕ
    → MpscQueue × Memory × S × ℕ
receive_shared send_on base zero q m s rx = (q, m, s, rx)
receive_shared send_on base (suc fuel) q m s rx = elim (dequeue q) [
  | empty ↦ (q, m, s, rx)
  | spins ↦ (q, m, s, rx)
  | taken offset q' ↦
      let o = offset - block_header_size in
      let p = shared o in
      let (m', s') = send_on p (write_buffer m p (localise base o (buffer_at m p))) s in
      receive_shared send_on base fuel q' (release m' (some p)) s' (rx + 1)
]
