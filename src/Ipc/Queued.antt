-- ===== src/Ipc/Queued.antt =====
-- The send queue of a connection against the list of the messages that wait in it, oldest first.
use gemini_nos.Base.{
  ℕ, ◌+◌, ◌%◌, ◌<◌, ◌≤◌, ◌≡◌, ◌≢◌, ℕ_discrete, inl, inr, refl, sym, ap, ◌∙◌, subst, arith, Bool,
  Bool-cases, ◌&&◌, true, false, ==_iff, ==_ne, ltb, if◌then◌else◌, List, [], ◌∷◌, length,
}
use gemini_nos.Memory.{BufPtr, release_all}
use gemini_nos.Ring.{used, contents, contents-pop, contents_empty, mod-eq-wrap}
use gemini_nos.Ipc.{
  Conn, Link, Lengths, SendResult, sent, again, broken, tx_queue_size, tx_low_watermark, process_tx,
  advance, disconnect, relieve,
}

-- Both indices are in the array.
pub record InRange (c : Conn) : Type 0 where
  pub head_in : c.head < tx_queue_size
  pub tail_in : c.tail < tx_queue_size

abbrev pub pending : Conn → List BufPtr
pending c = contents tx_queue_size c.tx_queue c.head c.tail

-- The messages that go out of a queue along the answers of the socket, those that stay, and whether
-- the link breaks.
pub gone : List SendResult → List BufPtr → List BufPtr
gone (sent ∷ answers) (buf ∷ queue) = buf ∷ gone answers queue
gone _ _ = []

pub left : List SendResult → List BufPtr → List BufPtr
left (sent ∷ answers) (buf ∷ queue) = left answers queue
left _ queue = queue

pub length-left :
    (answers : List SendResult) (queue : List BufPtr) → length (left answers queue) ≤ length queue
unfolding left
length-left [] queue = omega arith
length-left (sent ∷ answers) [] = omega arith
length-left (sent ∷ answers) (buf ∷ queue) = omega (arith, length-left answers queue)
length-left (again ∷ answers) queue = omega arith
length-left (broken ∷ answers) queue = omega arith

pub breaks : List SendResult → List BufPtr → Bool
breaks (sent ∷ answers) (buf ∷ queue) = breaks answers queue
breaks (broken ∷ answers) (buf ∷ queue) = true
breaks _ _ = false

pub bytes_of : Lengths → List BufPtr → ℕ
bytes_of full_len [] = 0
bytes_of full_len (buf ∷ bufs) = full_len buf + bytes_of full_len bufs

-- What a run of a queue that holds the messages `queue` does, in terms of that list.
pub record IsTransmitted (full_len : Lengths) (answers : List SendResult) (queue : List BufPtr)
    (l l' : Link) : Type 0 where
  pub range : InRange l'.conn
  pub stay : pending l'.conn ≡ left answers queue
  pub memory : l'.memory ≡ release_all (gone answers queue) l.memory
  pub packets : l'.stats.tx_packets ≡ l.stats.tx_packets + length (gone answers queue)
  pub bytes : l'.stats.tx_bytes ≡ l.stats.tx_bytes + bytes_of full_len (gone answers queue)
  pub errors : l'.stats.tx_errors ≡ l.stats.tx_errors + (if breaks answers queue then 1 else 0)
  pub connected :
      l'.conn.is_connected ≡ (if breaks answers queue then false else l.conn.is_connected)

-- The two cases of a queue.
data Queued (c : Conn) : Type 0 where
  drained : c.head ≡ c.tail → pending c ≡ [] → Queued c
  waits :
      c.head ≢ c.tail
      → pending c ≡ c.tx_queue c.head ∷ pending (record c { head = (c.head + 1) % tx_queue_size })
      → Queued c

queued : (c : Conn) → InRange c → Queued c
queued c v = elim (ℕ_discrete c.head c.tail) [
  | yes e ↦ drained e (
      ap (contents tx_queue_size c.tx_queue c.head) (sym e)
      ∙ contents_empty tx_queue_size c.tx_queue c.head)
  | no ne ↦ waits ne (
      contents-pop tx_queue_size c.tx_queue v.head_in v.tail_in ne
      ∙ ap (λ i. c.tx_queue c.head ∷ contents tx_queue_size c.tx_queue i c.tail)
          (sym (mod-eq-wrap tx_queue_size (c.head + 1) (omega (arith, v.head_in)))))
]

module _ (full_len : Lengths) where
  -- A run that sends nothing and breaks nothing may change the mark of congestion only.
  rests :
      (answers : List SendResult) (queue : List BufPtr) (l : Link) (mark : Bool)
      → InRange l.conn
      → pending l.conn ≡ queue
      → gone answers queue ≡ []
      → left answers queue ≡ queue
      → breaks answers queue ≡ false
      → IsTransmitted full_len answers queue l
          (record l { conn = record (l.conn) { is_congested = mark } })
  unfolding release_all bytes_of
  rests answers queue l mark v e g f b = record {
    range = record { head_in = v.head_in; tail_in = v.tail_in };
    stay = e ∙ sym f;
    memory = rw g refl;
    packets = rw g (omega arith);
    bytes = rw g (omega arith);
    errors = rw b (omega arith);
    connected = rw b refl;
  }

  relieved :
      (answers : List SendResult) (l : Link)
      → InRange l.conn
      → pending l.conn ≡ []
      → gone answers [] ≡ []
      → left answers [] ≡ []
      → breaks answers [] ≡ false
      → IsTransmitted full_len answers [] l (relieve l)
  unfolding relieve
  relieved answers l v e g f b =
      elim (Bool-cases (
        l.conn.is_congested && ltb (used tx_queue_size l.conn.head l.conn.tail) tx_low_watermark)) [
          | inl low ↦ rw (low, relieve) (rests answers [] l false v e g f b)
          | inr high ↦ rw (high, relieve) (rests answers [] l l.conn.is_congested v e g f b)
        ]

  idle :
      (answers : List SendResult) (l : Link)
      → InRange l.conn
      → pending l.conn ≡ []
      → IsTransmitted full_len answers [] l (relieve l)
  unfolding gone left breaks
  idle [] l v e = relieved [] l v e refl refl refl
  idle (sent ∷ answers) l v e = relieved (sent ∷ answers) l v e refl refl refl
  idle (again ∷ answers) l v e = relieved (again ∷ answers) l v e refl refl refl
  idle (broken ∷ answers) l v e = relieved (broken ∷ answers) l v e refl refl refl

  ends :
      (answers : List SendResult) (l : Link)
      → l.conn.head ≡ l.conn.tail
      → process_tx full_len answers l ≡ relieve l
  unfolding process_tx
  ends [] l e = rw ((==_iff _ _).1 e) refl
  ends (sent ∷ answers) l e = rw ((==_iff _ _).1 e) refl
  ends (again ∷ answers) l e = rw ((==_iff _ _).1 e) refl
  ends (broken ∷ answers) l e = rw ((==_iff _ _).1 e) refl

  behind : Link → Link
  behind l = advance full_len l

  -- A message goes out, and then the rest of the queue.
  goes_on :
      (answers : List SendResult) (rest : List BufPtr) (l l' : Link)
      → IsTransmitted full_len answers rest (behind l) l'
      → IsTransmitted full_len (sent ∷ answers) (l.conn.tx_queue l.conn.head ∷ rest) l l'
  unfolding gone left breaks release_all bytes_of behind advance
  goes_on answers rest l l' r = record {
    range = r.range;
    stay = r.stay;
    memory = r.memory;
    packets = omega (arith, r.packets);
    bytes = omega (arith, r.bytes);
    errors = r.errors;
    connected = r.connected;
  }

  cut :
      (answers : List SendResult) (buf : BufPtr) (rest : List BufPtr) (l : Link)
      → InRange l.conn
      → pending l.conn ≡ buf ∷ rest
      → IsTransmitted full_len (broken ∷ answers) (buf ∷ rest) l (disconnect l)
  unfolding gone left breaks release_all bytes_of disconnect
  cut answers buf rest l v e = record {
    range = record { head_in = v.head_in; tail_in = v.tail_in };
    stay = e;
    memory = refl;
    packets = omega arith;
    bytes = omega arith;
    errors = refl;
    connected = refl;
  }

  -- The connection once its first message is out.
  abbrev next : Conn → Conn
  next c = record c { head = (c.head + 1) % tx_queue_size }

  next-InRange : (c : Conn) → InRange c → InRange (next c)
  next-InRange c v = record { head_in = omega arith; tail_in = v.tail_in }

  transmitted :
      (answers : List SendResult) (queue : List BufPtr) (l : Link)
      → InRange l.conn
      → Queued l.conn
      → pending l.conn ≡ queue
      → IsTransmitted full_len answers queue l (process_tx full_len answers l)
  unfolding process_tx gone left breaks behind advance
  transmitted answers queue l v (drained same empty) e =
      subst (λ q. IsTransmitted full_len answers q l (process_tx full_len answers l))
        (sym empty ∙ e)
        (subst (IsTransmitted full_len answers [] l) (sym (ends answers l same))
          (idle answers l v empty))
  transmitted [] queue l v (waits ne more) e =
      rw (==_ne ne) (rests [] queue l l.conn.is_congested v e refl refl refl)
  transmitted (again ∷ answers) queue l v (waits ne more) e =
      rw (==_ne ne) (rests (again ∷ answers) queue l l.conn.is_congested v e refl refl refl)
  transmitted (broken ∷ answers) queue l v (waits ne more) e =
      subst
        (λ q.
          IsTransmitted full_len (broken ∷ answers) q l (process_tx full_len (broken ∷ answers) l))
        (sym more ∙ e) (rw (==_ne ne) (cut answers _ _ l v more))
  transmitted (sent ∷ answers) queue l v (waits ne more) e =
      let inside = next-InRange l.conn v in
      let rest =
        transmitted answers (pending (next l.conn)) (behind l) inside (queued (next l.conn) inside)
          refl in
      subst
        (λ q. IsTransmitted full_len (sent ∷ answers) q l (process_tx full_len (sent ∷ answers) l))
        (sym more ∙ e) (rw (==_ne ne) (goes_on answers _ l _ rest))

  -- On a connection whose indices are in range, `nos_ipc_process_tx` does to the queue what sending
  -- a list does: along the answers of the socket the oldest messages go out in their order, up to
  -- the first that does not; exactly those are released and counted, the others stay as they are,
  -- and the connection is closed, with an error counted, exactly if a message met a broken link.
  pub process_tx_lem :
      (answers : List SendResult) (l : Link)
      → InRange l.conn
      → IsTransmitted full_len answers (pending l.conn) l (process_tx full_len answers l)
  process_tx_lem answers l v = transmitted answers (pending l.conn) l v (queued l.conn v) refl
