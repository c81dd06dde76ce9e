-- ===== src/Timer/Up.antt =====
-- `heapify_up` and the insertion of a timer.
use gemini_nos.Base.{
  ℕ, zero, suc, ◌+◌, ◌≤◌, ◌<◌, ◌≡◌, ◌≢◌, arith, update, ltb, leb, Bool-cases, inl, inr,
}
use gemini_nos.Timer.{TimerHeap, expire, parent, swap, up_loop, heapify_up, insert}
use gemini_nos.Timer.Order.{InOrder, IsHeap, exp-swap}

-- Only the edge above `i` may be out of order, and the edges round `i` would be in order without it.
record RaisedAt (exp : ℕ → ℕ) (size : ℕ) (nodes : ℕ → ℕ) (i : ℕ) : Type 0 where
  edges : (c : ℕ) → 0 < c → c < size → c ≢ i → exp (nodes (parent c)) ≤ exp (nodes c)
  bridged :
      (c : ℕ) → 0 < c → c < size → parent c ≡ i → 0 < i → exp (nodes (parent i)) ≤ exp (nodes c)

swap-RaisedAt :
    (exp : ℕ → ℕ) (size : ℕ) (nodes : ℕ → ℕ) (i : ℕ)
    → RaisedAt exp size nodes i
    → i < size
    → 0 < i
    → exp (nodes i) < exp (nodes (parent i))
    → RaisedAt exp size (swap nodes i (parent i)) (parent i)
swap-RaisedAt exp size nodes i v inside pos below = record {
  edges = λ c p q r. ground (
    arith,
    exp-swap exp nodes i (parent i) c,
    exp-swap exp nodes i (parent i) (parent c),
    v.edges c,
    v.bridged c,
  );
  bridged = λ c p q r t. ground (
    arith,
    exp-swap exp nodes i (parent i) c,
    exp-swap exp nodes i (parent i) (parent (parent i)),
    v.edges c,
    v.edges (parent i),
  );
}

up_loop-InOrder :
    (exp : ℕ → ℕ) (size fuel : ℕ) (nodes : ℕ → ℕ) (i : ℕ)
    → i < fuel
    → i < size
    → RaisedAt exp size nodes i
    → InOrder exp size (up_loop exp fuel nodes i)
unfolding up_loop
up_loop-InOrder exp size zero nodes i f p v = absurd (omega arith)
up_loop-InOrder exp size (suc fuel) nodes i f p v = elim (Bool-cases (ltb 0 i)) [
  | inr root ↦ rw root (λ c q r. v.edges c q r (ground arith))
  | inl pos ↦ elim (Bool-cases (leb (exp (nodes (parent i))) (exp (nodes i)))) [
    | inl settled ↦ rw (pos, settled) (λ c q r. ground (arith, v.edges c))
    | inr rises ↦
        rw (pos, rises)
          (up_loop-InOrder exp size fuel (swap nodes i (parent i)) (parent i) (ground arith)
            (ground arith) (swap-RaisedAt exp size nodes i v p (ground arith) (ground arith)))
  ]
]

-- `nodes[size] = timer; heapify_up(size++)` keeps the heap order.
pub insert-IsHeap : (h : TimerHeap) (t : ℕ) → IsHeap h → IsHeap (insert h t)
unfolding insert heapify_up
insert-IsHeap h t v =
    up_loop-InOrder (expire h) (h.size + 1) (h.size + 1) (update h.nodes h.size t) h.size
      (omega arith) (omega arith)
      (record { edges = λ c p q r. ground (arith, v c); bridged = λ c p q r s. ground arith })
