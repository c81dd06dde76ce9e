-- ===== src/Queue/Tests.antt =====
-- Concrete queues.
use gemini_nos.Base.{
  ℕ, zero, suc, ◌+◌, ◌≤◌, ◌≡◌, ◌≢◌, ℕ_discrete, refl, sym, ap, subst, arith, length, Option, none,
  some, if◌then◌else◌, nos_ok, nos_err_busy, false, List, [], ◌∷◌, ◌++◌,
}
use gemini_nos.Memory.{BufPtr, Memory, pooled, retain}
use gemini_nos.Memory.Tests.{node_memory}
use gemini_nos.Ring.{contents, window, used}
use gemini_nos.Queue.{Handler, Inbox, local_send, process_messages}
use gemini_nos.Queue.Fifo.{InRange, local_send_lem, process_messages_lem, messages, Run, Appends}

-- A queue whose two messages lie at the end and the start of the array.
abbrev wrapped : Inbox
wrapped = record {
  msg_queue = λ i. pooled 0 i;
  head = 1023;
  tail = 1;
  is_sleeping = false;
  notified = 0;
}

wrapped-InRange : InRange wrapped
wrapped-InRange = record { head_in = omega arith; tail_in = omega arith }

local_send_example :
    (length (messages wrapped) ≡ 1023
      → local_send node_memory (pooled 0 0) (some wrapped)
        ≡ (nos_err_busy, node_memory, some wrapped))
    × (length (messages wrapped) ≢ 1023
        → (q' : Inbox) × (local_send node_memory (pooled 0 0) (some wrapped)
            ≡ (nos_ok, retain node_memory (some (pooled 0 0)), some q'))
          × InRange q'
          × (messages q' ≡ messages wrapped ++ pooled 0 0 ∷ [])
          × (q'.notified ≡ 0))
local_send_example = local_send_lem node_memory (pooled 0 0) wrapped wrapped-InRange

or_same : Inbox → Option Inbox → Inbox
or_same q none = q
or_same q (some q') = q'

-- A handler that sends each message to its own thread again, as often as the state says.
echo : Handler ℕ
unfolding or_same
echo buf m zero q = (m, zero, q)
echo buf m (suc n) q = let out = local_send m buf (some q) in (out.1, n, or_same q out.2)

abbrev sends_left : ℕ → ℕ
sends_left n = n

append_nil : (l : List BufPtr) → l ≡ l ++ []
append_nil [] = refl
append_nil (x ∷ l) = ap (◌∷◌ x) (append_nil l)

echo-Appends :
    (buf : BufPtr) (m : Memory) (n : ℕ) (q : Inbox)
    → InRange q
    → Appends sends_left q n (echo buf m n q)
unfolding echo or_same
echo-Appends buf m zero q v = record {
  in_range = v;
  new = [];
  behind = append_nil (messages q);
  fewer = omega arith;
}
echo-Appends buf m (suc n) q v = elim (ℕ_discrete (length (messages q)) 1023) [
  | yes full ↦
      subst (λ out. Appends sends_left q (suc n) (out.1, n, or_same q out.2)) (sym (told.0 full))
        (record { in_range = v; new = []; behind = append_nil (messages q); fewer = omega arith })
  | no room ↦
      let (q', e, v', behind, notified) = told.1 room in
      subst (λ out. Appends sends_left q (suc n) (out.1, n, or_same q out.2)) (sym e)
        (record { in_range = v'; new = buf ∷ []; behind = behind; fewer = omega arith })
]
  where
    told :
        (length (messages q) ≡ 1023 → local_send m buf (some q) ≡ (nos_err_busy, m, some q))
        × (length (messages q) ≢ 1023
            → (q' : Inbox) × (local_send m buf (some q) ≡ (nos_ok, retain m (some buf), some q'))
              × InRange q'
              × (messages q' ≡ messages q ++ buf ∷ [])
              × (q'.notified ≡ (if q.is_sleeping then q.notified + 1 else q.notified)))
    told = local_send_lem m buf q v

process_messages_example :
    let r = process_messages echo 6 node_memory 3 wrapped in
    (added : List BufPtr) × Run echo r.0 r.1 r.2
      (messages wrapped ++ added)
      added
      node_memory
      3
      wrapped
    × (messages r.2 ≡ [])
    × InRange r.2
    × (length added ≤ 3)
unfolding contents window used
process_messages_example =
    process_messages_lem echo sends_left echo-Appends 6 node_memory 3 wrapped wrapped-InRange
      (omega arith)
