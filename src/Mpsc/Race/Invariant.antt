-- ===== src/Mpsc/Race/Invariant.antt =====
-- What every step of the queue keeps: which slots are taken, and by whom.
use gemini_nos.Base.{
  ℕ, ◌+◌, ◌%◌, ◌<◌, ◌≡◌, ◌≢◌, ◌⊎◌, inl, inr, refl, sym, ap, ap₂, ◌∙◌, subst, fun_ext, arith, some,
  update, List, [], ◌∷◌, ◌++◌, ℕ_discrete,
}
use gemini_nos.Ring.{
  wrap, used, contents, contents-push, contents-pop, contents_empty, contents-update_outside,
  mod-eq-wrap,
}
use gemini_nos.Mpsc.{MpscQueue, queue_size, reserve, publish, taken, dequeue}
use gemini_nos.Mpsc.Fifo.{InRange}
use gemini_nos.Mpsc.Race.{Race, Step, take_slot, write, receive, initial, Reach, start, later}

-- What stands in a slot, or is about to.
abbrev pub promised : Race → ℕ → ℕ
promised s i = s.pending i + s.queue.offsets i

-- Slot `i` lies between the head and the tail.
abbrev pub InWindow : MpscQueue → ℕ → Type 0
InWindow q i = (i < queue_size) × (used queue_size q.head i < used queue_size q.head q.tail)

pub record Inv (s : Race) : Type 0 where
  pub range : InRange s.queue
  pub content : s.ordered ≡ s.received ++ contents queue_size (promised s) s.queue.head s.queue.tail
  pub alone : (i : ℕ) → (s.pending i ≡ 0) ⊎ (s.queue.offsets i ≡ 0)
  pub held : (i : ℕ) → InWindow s.queue i → 0 < promised s i
  pub bare : (i : ℕ) → 0 < promised s i → InWindow s.queue i

initial-Inv : Inv initial
unfolding used
initial-Inv = record {
  range = record { head_in = omega arith; tail_in = omega arith };
  content = sym (contents_empty queue_size (λ _. 0 + 0) 0);
  alone = λ i. inl refl;
  held = λ i h. absurd (ground (arith, h));
  bare = λ i h. absurd (omega arith);
}

-- What a slot that is taken tells.
record Reserved (q : MpscQueue) (slot : ℕ) (q' : MpscQueue) : Type 0 where
  room : (q.tail + 1) % queue_size ≢ q.head
  at_tail : slot ≡ q.tail
  moved : q' ≡ record q { tail = (q.tail + 1) % queue_size }

reserve-Reserved :
    (q : MpscQueue) (slot : ℕ) (q' : MpscQueue) → reserve q ≡ some (slot, q') → Reserved q slot q'
unfolding reserve
reserve-Reserved q slot q' e = elim (ℕ_discrete ((q.tail + 1) % queue_size) q.head) [
  | yes full ↦ absurd (ground (arith, e, full))
  | no room ↦ record {
    room = room;
    at_tail = ground (arith, e, room);
    moved = ground (arith, e, room);
  }
]

append_assoc : (xs ys zs : List ℕ) → (xs ++ ys) ++ zs ≡ xs ++ (ys ++ zs)
append_assoc [] ys zs = refl
append_assoc (x ∷ xs) ys zs = ap (◌∷◌ x) (append_assoc xs ys zs)

module _ {s : Race} (v : Inv s) where
  -- No slot is promised at the tail.
  vacant : promised s s.queue.tail ≡ 0
  unfolding used
  vacant = elim (ℕ_discrete (promised s s.queue.tail) 0) [
    | yes none_there ↦ none_there
    | no some_there ↦ absurd (omega (arith, (v.bare s.queue.tail (omega arith)).1))
  ]

  module _ (offset : ℕ) (proper : offset ≢ 0)
      (room : (s.queue.tail + 1) % queue_size ≢ s.queue.head) where
    after_take : Race
    after_take = record s {
      queue = record (s.queue) { tail = (s.queue.tail + 1) % queue_size };
      pending = update s.pending s.queue.tail offset;
      ordered = s.ordered ++ offset ∷ [];
    }

    promised_take : promised after_take ≡ update (promised s) s.queue.tail offset
    unfolding after_take
    promised_take = fun_ext (λ i. ground (arith, vacant))

    content_take :
        contents queue_size (promised after_take) s.queue.head ((s.queue.tail + 1) % queue_size)
        ≡ contents queue_size (promised s) s.queue.head s.queue.tail ++ offset ∷ []
    content_take =
        ap₂ (λ a t. contents queue_size a s.queue.head t) promised_take around
        ∙ contents-push queue_size (promised s) v.range.head_in v.range.tail_in offset
            (λ e. room (around ∙ e))
      where
        around : (s.queue.tail + 1) % queue_size ≡ wrap queue_size (s.queue.tail + 1)
        around = mod-eq-wrap queue_size (s.queue.tail + 1) (omega (arith, v.range.tail_in))

    take_slot-Inv : Inv after_take
    unfolding used after_take
    take_slot-Inv = record {
      range = record { head_in = v.range.head_in; tail_in = omega arith };
      content =
          ap (λ l. l ++ offset ∷ []) v.content
          ∙ append_assoc s.received (contents queue_size (promised s) s.queue.head s.queue.tail)
              (offset ∷ [])
          ∙ ap (λ l. s.received ++ l) (sym content_take);
      alone = λ i. ground (arith, v.alone i, vacant);
      held = λ i h. ground (arith, v.held i, room, proper);
      bare = λ i h. ground (arith, v.bare i, room);
    }

  module _ (slot : ℕ) (there : s.pending slot ≢ 0) where
    after_write : Race
    after_write = record s {
      queue = publish s.queue slot (s.pending slot);
      pending = update s.pending slot 0;
    }

    promised_write : promised after_write ≡ promised s
    unfolding after_write publish
    promised_write = fun_ext (λ i. ground (arith, v.alone slot, ap s.pending, ap s.queue.offsets))

    write-Inv : Inv after_write
    unfolding after_write publish
    write-Inv = record {
      range = record { head_in = v.range.head_in; tail_in = v.range.tail_in };
      content =
          v.content
          ∙ ap (λ a. s.received ++ contents queue_size a s.queue.head s.queue.tail)
              (sym promised_write);
      alone = λ i. ground (arith, v.alone i);
      held = λ i h. subst (λ n. 0 < n) (sym (ap (λ a. a i) promised_write)) (v.held i h);
      bare = λ i h. v.bare i (subst (λ n. 0 < n) (ap (λ a. a i) promised_write) h);
    }

  module _ (apart : s.queue.head ≢ s.queue.tail) (written : s.queue.offsets s.queue.head ≢ 0) where
    after_receive : Race
    after_receive = record s {
      queue = record (s.queue) {
        offsets = update s.queue.offsets s.queue.head 0;
        head = (s.queue.head + 1) % queue_size;
      };
      received = s.received ++ s.queue.offsets s.queue.head ∷ [];
    }

    quiet : s.pending s.queue.head ≡ 0
    quiet = elim (v.alone s.queue.head) [ inl e ↦ e | inr e ↦ absurd (written e) ]

    promised_receive : promised after_receive ≡ update (promised s) s.queue.head 0
    unfolding after_receive
    promised_receive = fun_ext (λ i. ground (arith, quiet))

    content_receive :
        contents queue_size (promised s) s.queue.head s.queue.tail
        ≡ s.queue.offsets s.queue.head
          ∷ contents queue_size
              (promised after_receive)
              ((s.queue.head + 1) % queue_size)
              s.queue.tail
    content_receive =
        contents-pop queue_size (promised s) v.range.head_in v.range.tail_in apart
        ∙ ap₂ (◌∷◌) (omega (arith, quiet)) (
            sym (
              contents-update_outside queue_size (promised s) v.range.head_in v.range.tail_in 0
                apart)
            ∙ ap₂ (λ a h. contents queue_size a h s.queue.tail) (sym promised_receive) (sym around))
      where
        around : (s.queue.head + 1) % queue_size ≡ wrap queue_size (s.queue.head + 1)
        around = mod-eq-wrap queue_size (s.queue.head + 1) (omega (arith, v.range.head_in))

    receive-Inv : Inv after_receive
    unfolding used after_receive
    receive-Inv = record {
      range = record { head_in = omega arith; tail_in = v.range.tail_in };
      content =
          v.content
          ∙ ap (λ l. s.received ++ l) content_receive
          ∙ sym (append_assoc s.received (s.queue.offsets s.queue.head ∷ []) _);
      alone = λ i. ground (arith, v.alone i);
      held = λ i h. ground (arith, v.held i, apart, v.range.head_in, v.range.tail_in);
      bare = λ i h. ground (arith, v.bare i, quiet, apart, v.range.head_in, v.range.tail_in);
    }

-- What a slot that is read tells.
record Read (q : MpscQueue) (offset : ℕ) (q' : MpscQueue) : Type 0 where
  apart : q.head ≢ q.tail
  written : q.offsets q.head ≢ 0
  read : offset ≡ q.offsets q.head
  moved : q' ≡ record q { offsets = update q.offsets q.head 0; head = (q.head + 1) % queue_size }

dequeue-Read :
    (q : MpscQueue) (offset : ℕ) (q' : MpscQueue) → dequeue q ≡ taken offset q' → Read q offset q'
unfolding dequeue
dequeue-Read q offset q' e = elim (ℕ_discrete q.head q.tail) [
  | yes none_there ↦ absurd (ground (arith, e, none_there))
  | no apart ↦ elim (ℕ_discrete (q.offsets q.head) 0) [
    | yes pending ↦ absurd (ground (arith, e, apart, pending))
    | no written ↦ record {
      apart = apart;
      written = written;
      read = ground (arith, e, apart, written);
      moved = ground (arith, e, apart, written);
    }
  ]
]

pub step-Inv : (s t : Race) → Step s t → Inv s → Inv t
unfolding after_take after_write after_receive
step-Inv s _ (take_slot offset slot q proper e) v =
    let r = reserve-Reserved s.queue slot q e in
    subst
      (λ (p : ℕ × MpscQueue). Inv (record s {
        queue = p.1;
        pending = update s.pending p.0 offset;
        ordered = s.ordered ++ offset ∷ [];
      }))
      (ap₂ (λ a b. (a, b)) (sym r.at_tail) (sym r.moved)) (take_slot-Inv v offset proper r.room)
step-Inv s _ (write slot there) v = write-Inv v slot there
step-Inv s _ (receive offset q e) v =
    let r = dequeue-Read s.queue offset q e in
    subst (λ (p : ℕ × MpscQueue). Inv (record s { queue = p.1; received = s.received ++ p.0 ∷ [] }))
      (ap₂ (λ a b. (a, b)) (sym r.read) (sym r.moved)) (receive-Inv v r.apart r.written)

pub reach-Inv : {s : Race} → Reach s → Inv s
reach-Inv start = initial-Inv
reach-Inv (later r step) = step-Inv _ _ step (reach-Inv r)
