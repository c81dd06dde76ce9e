-- ===== src/Thread/Drain.antt =====
-- What becomes of the messages of a thread that ends.
use gemini_nos.Base.{
  ℕ, zero, suc, ◌+◌, ◌%◌, ◌<◌, ◌≡◌, ◌≢◌, refl, sym, ap, ◌∙◌, arith, some, ==_iff, ==_ne, List, [],
  ◌∷◌, length, ℕ_discrete,
}
use gemini_nos.Memory.{BufPtr, Memory, release, release_all}
use gemini_nos.Ring.{contents, contents-pop, contents_empty, length-contents, mod-eq-wrap, used-lt}
use gemini_nos.Queue.{Inbox, max_queue_size}
use gemini_nos.Queue.Fifo.{InRange, messages}
use gemini_nos.Thread.{Thread, drain_queue, deinit_thread}

abbrev behind : Inbox → Inbox
behind q = record q { head = (q.head + 1) % max_queue_size }

messages-split :
    (q : Inbox)
    → InRange q
    → q.head ≢ q.tail
    → messages q ≡ q.msg_queue q.head ∷ messages (behind q)
messages-split q v ne =
    contents-pop max_queue_size q.msg_queue v.head_in v.tail_in ne
    ∙ ap (λ i. q.msg_queue q.head ∷ contents max_queue_size q.msg_queue i q.tail)
        (sym (mod-eq-wrap max_queue_size (q.head + 1) (omega (arith, v.head_in))))

-- What is left by a queue that has been drained.
pub record IsDrained (bufs : List BufPtr) (m m' : Memory) (q : Inbox) : Type 0 where
  pub released : m' ≡ release_all bufs m
  pub empty : messages q ≡ []

drained :
    (fuel : ℕ) (m : Memory) (q : Inbox)
    → InRange q
    → length (messages q) < fuel
    → let r = drain_queue fuel m q in IsDrained (messages q) m r.0 r.1
unfolding drain_queue release_all
drained zero m q v f = absurd (omega arith)
drained (suc fuel) m q v f = elim (ℕ_discrete q.head q.tail) [
  | yes e ↦
      let empty : messages q ≡ [] =
        ap (contents max_queue_size q.msg_queue q.head) (sym e)
        ∙ contents_empty max_queue_size q.msg_queue q.head in
      rw ((==_iff _ _).1 e) (record { released = rw empty refl; empty = empty })
  | no ne ↦
      let split = messages-split q v ne in
      let inside : InRange (behind q) = record { head_in = omega arith; tail_in = v.tail_in } in
      let rest =
        drained fuel (release m (some (q.msg_queue q.head))) (behind q) inside
          (omega (arith, ap length split, f)) in
      rw (==_ne ne) (record { released = rw split rest.released; empty = rest.empty })
]

-- The end of a thread whose queue is in range releases every message that was left in the queue,
-- once and in the order of their coming, and leaves the queue empty: no queue holds more messages
-- than the fuel allows for.
pub deinit_thread_lem :
    (m : Memory) (t : Thread)
    → InRange t.inbox
    → (t' : Thread) × ((deinit_thread m (some t)).1 ≡ some t')
      × IsDrained (messages t.inbox) m (deinit_thread m (some t)).0 t'.inbox
unfolding deinit_thread
deinit_thread_lem m t v = (
  _,
  refl,
  drained max_queue_size m t.inbox v (
      omega (
        arith,
        length-contents max_queue_size t.inbox.msg_queue t.inbox.head t.inbox.tail,
        used-lt max_queue_size v.head_in v.tail_in,
      )),
)
