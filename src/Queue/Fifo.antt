-- ===== src/Queue/Fifo.antt =====
-- The message queue of a thread against a list of messages, oldest first.
use gemini_nos.Base.{
  ℕ, zero, suc, ◌+◌, ◌%◌, subst, ◌<◌, ◌≤◌, ◌≡◌, ◌≢◌, ◌⊎◌, ◌↔◌, ℕ_discrete, inl, inr, refl, sym, ap,
  ◌∙◌, arith, false, none, some, ◌==◌, if◌then◌else◌, update, nos_ok, nos_err_busy, List, [], ◌∷◌,
  ◌++◌, length, ==_iff,
}
use gemini_nos.Memory.{BufPtr, Memory, retain, release}
use gemini_nos.Ring.{
  wrap, used, contents, contents-push, contents-pop, contents_empty, length-contents,
}
use gemini_nos.Queue.{Inbox, max_queue_size, Handler, local_send, take_message, process_messages}

-- Both indices are in the array.
pub record InRange (q : Inbox) : Type 0 where
  pub head_in : q.head < max_queue_size
  pub tail_in : q.tail < max_queue_size

abbrev pub messages : Inbox → List BufPtr
messages q = contents max_queue_size q.msg_queue q.head q.tail

step-eq-wrap : (i : ℕ) → i < max_queue_size → (i + 1) % max_queue_size ≡ wrap max_queue_size (i + 1)
step-eq-wrap i h = ground arith

-- The test for a full queue.
full-eq :
    (h t : ℕ)
    → h < max_queue_size
    → t < max_queue_size
    → ((t + 1) % max_queue_size ≡ h) ↔ (used max_queue_size h t ≡ 1023)
unfolding used
full-eq h t p q = ((λ e. ground arith), λ e. ground arith)

-- The queue after a message has been put at its tail.
abbrev sent : Inbox → BufPtr → Inbox
sent q buf = record q {
  msg_queue = update q.msg_queue q.tail buf;
  tail = (q.tail + 1) % max_queue_size;
  notified = if q.is_sleeping then q.notified + 1 else q.notified;
}

module _ (m : Memory) (buf : BufPtr) (q : Inbox) (v : InRange q) where
  -- On a queue whose indices are in range: 1023 messages refuse another, and nothing changes. Any
  -- other queue takes the message: the buffer gets one more reference, the message stands behind
  -- the others, the indices stay in range, and a thread that sleeps is notified.
  pub local_send_lem :
      (length (messages q) ≡ 1023 → local_send m buf (some q) ≡ (nos_err_busy, m, some q))
      × (length (messages q) ≢ 1023
          → (q' : Inbox) × (local_send m buf (some q) ≡ (nos_ok, retain m (some buf), some q'))
            × InRange q'
            × (messages q' ≡ messages q ++ buf ∷ [])
            × (q'.notified ≡ (if q.is_sleeping then q.notified + 1 else q.notified)))
  unfolding local_send
  local_send_lem = (
    λ full. rw ((==_iff _ _).1 (meets.1 (sym counted ∙ full))),
    λ room.
        let ne : (q.tail + 1) % max_queue_size ≢ q.head = λ e. room (counted ∙ meets.0 e) in
        (
          sent q buf,
          rw (not_full ne),
          record { head_in = v.head_in; tail_in = omega arith },
          rw (step-eq-wrap q.tail v.tail_in) (
              contents-push max_queue_size q.msg_queue v.head_in v.tail_in buf
                (λ e. ne (step-eq-wrap q.tail v.tail_in ∙ e))),
          refl,
        ),
  )
    where
      counted : length (messages q) ≡ used max_queue_size q.head q.tail
      counted = length-contents max_queue_size q.msg_queue q.head q.tail

      meets : ((q.tail + 1) % max_queue_size ≡ q.head) ↔ (used max_queue_size q.head q.tail ≡ 1023)
      meets = full-eq q.head q.tail v.head_in v.tail_in

      not_full :
          (q.tail + 1) % max_queue_size ≢ q.head → ((q.tail + 1) % max_queue_size == q.head) ≡ false
      not_full ne = ground arith

module _ (q : Inbox) (v : InRange q) where
  -- On a queue whose indices are in range, the oldest message is taken, and the others stay in
  -- their order and the indices in range; of an empty queue none is taken.
  pub take_message_lem :
      ((messages q ≡ []) × (take_message q ≡ none))
      ⊎ ((q' : Inbox) × (messages q ≡ q.msg_queue q.head ∷ messages q')
          × (take_message q ≡ some (q.msg_queue q.head, q'))
          × InRange q')
  unfolding take_message
  take_message_lem = elim (ℕ_discrete q.head q.tail) [
    | yes e ↦ inl (rw e (contents_empty max_queue_size q.msg_queue q.tail), rw ((==_iff _ _).1 e))
    | no ne ↦ inr (
      record q { head = (q.head + 1) % max_queue_size },
      rw (step-eq-wrap q.head v.head_in)
          (contents-pop max_queue_size q.msg_queue v.head_in v.tail_in ne),
      rw (apart ne),
      record { head_in = omega arith; tail_in = v.tail_in },
    )
  ]
    where
      apart : q.head ≢ q.tail → (q.head == q.tail) ≡ false
      apart ne = ground arith

-- A run of the loop from one state to another: `handled` are the messages delivered, in their order,
-- and `added` those that the handlers put behind the queue meanwhile. Each round takes the oldest
-- message, delivers it, and releases its reference once.
pub data Run {ℓ} {S : Type ℓ} (deliver : Handler S) (m' : Memory) (s' : S) (q' : Inbox)
    : (handled added : List BufPtr) → Memory → S → Inbox → Type ℓ where
  idle : messages q' ≡ [] → InRange q' → Run deliver m' s' q' [] [] m' s' q'
  round :
      {handled added : List BufPtr} (buf : BufPtr) (new : List BufPtr) (m n : Memory) (s r : S)
      (q rest p : Inbox)
      → messages q ≡ buf ∷ messages rest
      → deliver buf m s rest ≡ (n, r, p)
      → messages p ≡ messages rest ++ new
      → Run deliver m' s' q' handled added (release n (some buf)) r p
      → Run deliver m' s' q' (buf ∷ handled) (new ++ added) m s q

-- What a handler does to the queue of its thread, with `weight` the number of messages that it may
-- still put there: it puts some behind those that wait, and each counts.
pub record Appends {ℓ} {S : Type ℓ} (weight : S → ℕ) (q : Inbox) (s : S) (out : Memory × S × Inbox)
    : Type ℓ where
  pub in_range : InRange out.2
  pub new : List BufPtr
  pub behind : messages out.2 ≡ messages q ++ new
  pub fewer : weight out.1 + length new ≤ weight s

length-append : (xs ys : List BufPtr) → length (xs ++ ys) ≡ length xs + length ys
length-append [] ys = omega arith
length-append (x ∷ xs) ys = let rest = length-append xs ys in omega (arith, rest)

append_assoc : (xs ys zs : List BufPtr) → (xs ++ ys) ++ zs ≡ xs ++ (ys ++ zs)
append_assoc [] ys zs = refl
append_assoc (x ∷ xs) ys zs = ap (◌∷◌ x) (append_assoc xs ys zs)

module _ {ℓ} {S : Type ℓ} (deliver : Handler S) (weight : S → ℕ)
    (appends : (buf : BufPtr) (m : Memory) (s : S) (q : Inbox)
      → InRange q
      → Appends weight q s (deliver buf m s q)) where
  -- On a queue whose indices are in range, with handlers that only put messages behind those that
  -- wait, at most `weight s` of them in all, and with more fuel than these and the waiting messages:
  -- `process_thread_messages` ends with an empty queue, its indices in range. It delivers the messages
  -- that waited, in the order in which they were sent, and then those that the handlers sent, in
  -- that order, and releases each once after its delivery.
  pub process_messages_lem :
      (fuel : ℕ) (m : Memory) (s : S) (q : Inbox)
      → InRange q
      → weight s + length (messages q) < fuel
      → let r = process_messages deliver fuel m s q in
        (added : List BufPtr) × Run deliver r.0 r.1 r.2 (messages q ++ added) added m s q
        × (messages r.2 ≡ [])
        × InRange r.2
        × (length added ≤ weight s)
  unfolding process_messages
  process_messages_lem zero m s q v f = absurd (omega arith)
  process_messages_lem (suc fuel) m s q v f = elim (take_message_lem q v) [
    | inl (empty, e) ↦ rw (e, process_messages, empty) ([], idle empty v, refl, v, omega arith)
    | inr (q', split, e, v') ↦
        let buf = q.msg_queue q.head in
        let d = deliver buf m s q' in
        let a = appends buf m s q' v' in
        let few : weight d.1 + length (messages d.2) < fuel = omega (
          arith,
          a.fewer,
          f,
          ap length split,
          ap length a.behind,
          length-append (messages q') a.new,
        ) in
        let (added, run, empty, w, bounded) =
          process_messages_lem fuel (release d.0 (some buf)) d.1 d.2 a.in_range few in
        let order : buf ∷ (messages d.2 ++ added) ≡ messages q ++ (a.new ++ added) =
          ap (λ l. buf ∷ (l ++ added)) a.behind
          ∙ ap (◌∷◌ buf) (append_assoc (messages q') a.new added)
          ∙ ap (λ l. l ++ (a.new ++ added)) (sym split) in
        rw (e, process_messages)
          (
            a.new ++ added,
            subst
                (λ l.
                  let r = process_messages deliver fuel (release d.0 (some buf)) d.1 d.2 in
                  Run deliver r.0 r.1 r.2 l (a.new ++ added) m s q)
                order (round buf a.new m d.0 s d.1 q q' d.2 split refl a.behind run),
            empty,
            w,
            omega (arith, a.fewer, bounded, length-append a.new added),
          )
  ]
