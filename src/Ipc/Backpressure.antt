-- ===== src/Ipc/Backpressure.antt =====
-- What happens to a message that is to go out: `nos_ipc_send_enqueue_ex` after its reconnection.
use gemini_nos.Base.{
  ◌+◌, ◌%◌, ◌<◌, ◌≤◌, ◌≡◌, ◌≢◌, inl, inr, sym, ap, ◌∙◌, subst, arith, Bool-cases, true, false,
  dec_lt, ◌==◌, ==_ne, ltb, lt→ltb, Status, nos_ok, nos_err_busy, nos_err, List, [], ◌∷◌, ◌++◌,
  length, length-append,
}
use gemini_nos.Memory.{BufPtr}
use gemini_nos.Ring.{wrap, used, contents-push, length-contents, mod-eq-wrap}
use gemini_nos.Ipc.{
  Link, Lengths, SendResult, tx_queue_size, tx_high_watermark, process_tx, append, drop_full,
  enqueue,
}
use gemini_nos.Ipc.Queued.{InRange, pending, length-left, IsTransmitted, process_tx_lem}

-- The connection with congestion marked.
abbrev pub congested : Link → Link
congested l = record l { conn = record (l.conn) { is_congested = true } }

-- What comes of a message for a link.
pub data Outcome (full_len : Lengths) (answers : List SendResult) (buf : BufPtr) (l : Link)
    : Status × Link → Type 0 where
  refused : l.conn.is_connected ≡ false → Outcome full_len answers buf l (nos_err, l)
  dropped :
      l.conn.is_connected ≡ true
      → tx_high_watermark < length (pending l.conn)
      → Outcome full_len answers buf l (nos_err_busy, drop_full (congested l))
  accepted :
      {l' : Link}
      → l.conn.is_connected ≡ true
      → length (pending l.conn) ≤ tx_high_watermark
      → IsTransmitted full_len answers (pending l.conn ++ buf ∷ []) (append l buf) l'
      → length (pending l'.conn) ≤ tx_high_watermark + 1
      → Outcome full_len answers buf l (nos_ok, l')

module _ (full_len : Lengths) (answers : List SendResult) (buf : BufPtr) (l : Link)
    (v : InRange l.conn) where
  counted : length (pending l.conn) ≡ used tx_queue_size l.conn.head l.conn.tail
  counted = length-contents tx_queue_size l.conn.tx_queue l.conn.head l.conn.tail

  module _ (few : length (pending l.conn) ≤ tx_high_watermark) where
    room : wrap tx_queue_size (l.conn.tail + 1) ≢ l.conn.head
    unfolding used
    room e = ground (arith, few, counted, v.head_in, v.tail_in)

    step : (l.conn.tail + 1) % tx_queue_size ≡ wrap tx_queue_size (l.conn.tail + 1)
    step = mod-eq-wrap tx_queue_size (l.conn.tail + 1) (omega (arith, v.tail_in))

    appended : pending (append l buf).conn ≡ pending l.conn ++ buf ∷ []
    appended = rw step (contents-push tx_queue_size l.conn.tx_queue v.head_in v.tail_in buf room)

    appended-InRange : InRange (append l buf).conn
    appended-InRange = record { head_in = v.head_in; tail_in = omega arith }

    bounded :
        {l' : Link}
        → IsTransmitted full_len answers (pending l.conn ++ buf ∷ []) (append l buf) l'
        → length (pending l'.conn) ≤ tx_high_watermark + 1
    bounded r = omega (
      arith,
      ap length r.stay,
      length-left answers (pending l.conn ++ buf ∷ []),
      length-append (pending l.conn) (buf ∷ []),
    )

    queued :
        IsTransmitted full_len answers
          (pending l.conn ++ buf ∷ [])
          (append l buf)
          (process_tx full_len answers (append l buf))
    queued =
        subst
          (λ q.
            IsTransmitted full_len answers q (append l buf)
              (process_tx full_len answers (append l buf)))
          appended (process_tx_lem full_len answers (append l buf) appended-InRange)

  down_eq : l.conn.is_connected ≡ false → enqueue full_len answers buf l ≡ (nos_err, l)
  unfolding enqueue
  down_eq down = simp (down)

  module _ (up : l.conn.is_connected ≡ true) where
    many_eq :
        tx_high_watermark < length (pending l.conn)
        → enqueue full_len answers buf l ≡ (nos_err_busy, drop_full (congested l))
    unfolding enqueue
    many_eq many = simp (
      up,
      lt→ltb tx_high_watermark (used tx_queue_size l.conn.head l.conn.tail)
          (omega (arith, counted)),
    )

    few_eq :
        length (pending l.conn) ≤ tx_high_watermark
        → enqueue full_len answers buf l ≡ (nos_ok, process_tx full_len answers (append l buf))
    unfolding enqueue
    few_eq few = simp (up, quiet, open_slot)
      where
        quiet : ltb tx_high_watermark (used tx_queue_size l.conn.head l.conn.tail) ≡ false
        quiet = ground (arith, counted)

        open_slot : ((l.conn.tail + 1) % tx_queue_size == l.conn.head) ≡ false
        open_slot = ==_ne (λ e. room few (sym (step few) ∙ e))

  -- A message for a connection whose indices are in range meets one of three fates: an error, with
  -- nothing changed, on a connection that is down; on one with more than 900 messages waiting, the
  -- answer that it is busy, with the drop counted and congestion marked, and nothing queued; and
  -- else it gets one more reference and stands behind the others, and messages go out of the queue
  -- as `nos_ipc_process_tx` sends them. At most 901 wait then, so the test for a full queue never
  -- succeeds.
  pub enqueue-Outcome : Outcome full_len answers buf l (enqueue full_len answers buf l)
  enqueue-Outcome = elim (Bool-cases l.conn.is_connected) [
    | inr down ↦ subst (Outcome full_len answers buf l) (sym (down_eq down)) (refused down)
    | inl up ↦ elim (dec_lt tx_high_watermark (length (pending l.conn))) [
      | yes many ↦ subst (Outcome full_len answers buf l) (sym (many_eq up many)) (dropped up many)
      | no not_many ↦
          let few : length (pending l.conn) ≤ tx_high_watermark = omega arith in
          subst (Outcome full_len answers buf l) (sym (few_eq up few))
            (accepted up few (queued few) (bounded few (queued few)))
    ]
  ]
