-- ===== src/Timer/Stop.antt =====
-- `nos_timer_stop` and `nos_timer_delete` put the last node of the heap in the place of the one that
-- leaves, and sift it down only. Where it belongs above that place, the heap order is lost.
use gemini_nos.Base.{ℕ, zero, suc, ◌+◌, ◌-◌, ◌≤◌, ◌<◌, ◌≡◌, arith, refl, ap, update}
use gemini_nos.Timer.{TimerHeap, expire, parent, swap, smallest, down_loop, heapify_down, remove_at}
use gemini_nos.Timer.Order.{IsHeap, exp-swap}

smallest_gt : (exp : ℕ → ℕ) (size : ℕ) (nodes : ℕ → ℕ) (i : ℕ) → i < smallest exp size nodes i
unfolding smallest
smallest_gt exp size nodes i = ground arith

-- Sifting down from `i` changes nothing above `i`.
down_loop_above :
    (exp : ℕ → ℕ) (size fuel : ℕ) (nodes : ℕ → ℕ) (i j : ℕ)
    → j < i
    → down_loop exp size fuel nodes i j ≡ nodes j
unfolding down_loop
down_loop_above exp size zero nodes i j p = refl
down_loop_above exp size (suc fuel) nodes i j p =
    let m = smallest exp size nodes i in
    ground (arith, smallest_gt exp size nodes i, down_loop_above exp size fuel (swap nodes i m) m j)

-- It leaves at `i` a key no larger than the one that stood there.
down_loop_at :
    (exp : ℕ → ℕ) (size fuel : ℕ) (nodes : ℕ → ℕ) (i : ℕ)
    → exp (down_loop exp size fuel nodes i i) ≤ exp (nodes i)
unfolding down_loop
down_loop_at exp size zero nodes i = omega arith
down_loop_at exp size (suc fuel) nodes i =
    let m = smallest exp size nodes i in
    ground (
      arith,
      smallest_gt exp size nodes i,
      ap exp (down_loop_above exp size fuel (swap nodes i m) m i (smallest_gt exp size nodes i)),
      exp-swap exp nodes i m i,
    )

-- When the last timer expires earlier than the parent of the node removed, which is neither the
-- root nor the last, what is left is no heap.
pub remove_at_breaks :
    (h : TimerHeap) (i : ℕ)
    → 0 < i
    → i < h.size - 1
    → expire h (h.nodes (h.size - 1)) < expire h (h.nodes (parent i))
    → ¬ IsHeap (remove_at h i)
unfolding remove_at heapify_down
remove_at_breaks h i pos inside early v = ground (
  arith,
  v i,
  down_loop_at (expire h) (h.size - 1) (h.size - 1 + 1) moved i,
  ap (expire h)
      (down_loop_above (expire h) (h.size - 1) (h.size - 1 + 1) moved i (parent i) (omega arith)),
)
  where
    moved : ℕ → ℕ
    moved = update h.nodes i (h.nodes (h.size - 1))
