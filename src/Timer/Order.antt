-- ===== src/Timer/Order.antt =====
-- The order of the timer heap.
use gemini_nos.Base.{ℕ, zero, suc, ◌≤◌, ◌<◌, ◌≡◌, arith, ◌==◌, if◌then◌else◌}
use gemini_nos.Timer.{TimerHeap, expire, parent, swap}

-- Along every edge of the first `size` nodes the key of the parent is no larger.
abbrev pub InOrder : (ℕ → ℕ) → ℕ → (ℕ → ℕ) → Type 0
InOrder exp size nodes = (c : ℕ) → 0 < c → c < size → exp (nodes (parent c)) ≤ exp (nodes c)

abbrev pub IsHeap : TimerHeap → Type 0
IsHeap h = InOrder (expire h) h.size h.nodes

root_least_below :
    (k : ℕ) (exp : ℕ → ℕ) (size : ℕ) (nodes : ℕ → ℕ) (i : ℕ)
    → InOrder exp size nodes
    → i < k
    → i < size
    → exp (nodes 0) ≤ exp (nodes i)
root_least_below zero exp size nodes i h f p = absurd (omega arith)
root_least_below (suc k) exp size nodes i h f p =
    ground (arith, h i, root_least_below k exp size nodes (parent i) h)

-- In a heap no timer expires before the one at the root.
pub root_least :
    (h : TimerHeap) (i : ℕ) → IsHeap h → i < h.size → expire h (h.nodes 0) ≤ expire h (h.nodes i)
root_least h i v p = root_least_below (suc i) (expire h) h.size h.nodes i v (omega arith) p

-- What a key function reads after a swap.
pub exp-swap :
    (exp nodes : ℕ → ℕ) (i j c : ℕ)
    → exp (swap nodes i j c)
      ≡ (if j == c then exp (nodes i) else if i == c then exp (nodes j) else exp (nodes c))
exp-swap exp nodes i j c = ground arith
