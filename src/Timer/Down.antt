-- ===== src/Timer/Down.antt =====
-- `heapify_down` and the removal of the timer at the root.
use gemini_nos.Base.{
  ℕ, zero, suc, ◌+◌, ◌-◌, ◌*◌, ◌≤◌, ◌<◌, ◌≡◌, ◌≢◌, ◌⊎◌, arith, update, ltb, leb, Bool-cases, inl,
  inr,
}
use gemini_nos.Timer.{TimerHeap, expire, parent, swap, smallest, down_loop, heapify_down, remove_at}
use gemini_nos.Timer.Order.{InOrder, IsHeap, exp-swap}

-- Only the edges below `i` may be out of order, and the edges round `i` would be in order without it.
pub record LoweredAt (exp : ℕ → ℕ) (size : ℕ) (nodes : ℕ → ℕ) (i : ℕ) : Type 0 where
  pub edges : (c : ℕ) → 0 < c → c < size → parent c ≢ i → exp (nodes (parent c)) ≤ exp (nodes c)
  pub bridged :
      (c : ℕ) → 0 < c → c < size → parent c ≡ i → 0 < i → exp (nodes (parent i)) ≤ exp (nodes c)

-- The child chosen is inside, and no child is smaller.
pub record IsSmallest (exp : ℕ → ℕ) (size : ℕ) (nodes : ℕ → ℕ) (i m : ℕ) : Type 0 where
  pub inside : m < size
  pub child : (m ≡ i * 2 + 1) ⊎ (m ≡ i * 2 + 2)
  pub least : (c : ℕ) → 0 < c → c < size → parent c ≡ i → exp (nodes m) ≤ exp (nodes c)

pub smallest-IsSmallest :
    (exp : ℕ → ℕ) (size : ℕ) (nodes : ℕ → ℕ) (i : ℕ)
    → i * 2 + 1 < size
    → IsSmallest exp size nodes i (smallest exp size nodes i)
unfolding smallest
smallest-IsSmallest exp size nodes i h = record {
  inside = ground arith;
  child = ground arith;
  least = λ c p q r. let side : (c ≡ i * 2 + 1) ⊎ (c ≡ i * 2 + 2) = omega arith in ground arith;
}

swap-LoweredAt :
    (exp : ℕ → ℕ) (size : ℕ) (nodes : ℕ → ℕ) (i m : ℕ)
    → LoweredAt exp size nodes i
    → IsSmallest exp size nodes i m
    → exp (nodes m) < exp (nodes i)
    → LoweredAt exp size (swap nodes i m) m
swap-LoweredAt exp size nodes i m v s below = record {
  edges = λ c p q r. ground (
    arith,
    exp-swap exp nodes i m c,
    exp-swap exp nodes i m (parent c),
    v.edges c,
    v.bridged m,
    s.least c,
    s.child,
  );
  bridged = λ c p q r t.
      ground
        (arith, exp-swap exp nodes i m c, exp-swap exp nodes i m (parent m), v.edges c, s.child);
}

pub down_loop-InOrder :
    (exp : ℕ → ℕ) (size fuel : ℕ) (nodes : ℕ → ℕ) (i : ℕ)
    → size - i < fuel
    → LoweredAt exp size nodes i
    → InOrder exp size (down_loop exp size fuel nodes i)
unfolding down_loop
down_loop-InOrder exp size zero nodes i f v = absurd (omega arith)
down_loop-InOrder exp size (suc fuel) nodes i f v = elim (Bool-cases (ltb (i * 2 + 1) size)) [
  | inr leaf ↦ rw leaf (λ c p q. v.edges c p q (ground arith))
  | inl inner ↦
      let m = smallest exp size nodes i in
      let s = smallest-IsSmallest exp size nodes i (ground arith) in
      elim (Bool-cases (leb (exp (nodes i)) (exp (nodes m)))) [
        | inl settled ↦ rw (inner, settled) (λ c p q. ground (arith, v.edges c, s.least c))
        | inr sinks ↦
            rw (inner, sinks)
              (down_loop-InOrder exp size fuel (swap nodes i m) m (omega (arith, s.child, s.inside))
                (swap-LoweredAt exp size nodes i m v s (ground arith)))
      ]
]

-- On a heap that is not empty, taking the last node to the root, and sifting it down, keeps the
-- order.
pub remove_root-IsHeap : (h : TimerHeap) → 0 < h.size → IsHeap h → IsHeap (remove_at h 0)
unfolding remove_at heapify_down
remove_root-IsHeap h some_timer v =
    down_loop-InOrder (expire h) (h.size - 1) (h.size - 1 + 1)
      (update h.nodes 0 (h.nodes (h.size - 1))) 0 (omega arith)
      (record {
        edges = λ c p q r. ground (arith, v c);
        bridged = λ c p q r s. absurd (omega arith);
      })

-- The removal of any node keeps the order if the last node expires no earlier than the parent of the
-- node removed, whose place it takes.
pub remove_at-IsHeap :
    (h : TimerHeap) (i : ℕ)
    → i < h.size
    → IsHeap h
    → (0 < i → expire h (h.nodes (parent i)) ≤ expire h (h.nodes (h.size - 1)))
    → IsHeap (remove_at h i)
unfolding remove_at heapify_down
remove_at-IsHeap h i p v fits =
    down_loop-InOrder (expire h) (h.size - 1) (h.size - 1 + 1)
      (update h.nodes i (h.nodes (h.size - 1))) i (omega arith)
      (record {
        edges = λ c p q r. ground (arith, v c, fits);
        bridged = λ c p q r s. ground (arith, v c, v i);
      })
