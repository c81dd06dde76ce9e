-- ===== src/Timer/Tally.antt =====
-- How many of the timers of a heap pass a test: sifting does not change it.
use gemini_nos.Base.{
  ℕ, zero, suc, ◌+◌, ◌-◌, ◌*◌, ◌≤◌, ◌<◌, ◌≡◌, ◌≢◌, refl, ap, ◌∙◌, arith, Bool, false, update,
  update_ne, update_self, ltb, leb, if◌then◌else◌, Bool-cases, inl, inr, dec_lt,
}
use gemini_nos.Timer.{
  TimerHeap, expire, parent, swap, smallest, up_loop, down_loop, heapify_up, heapify_down, insert,
  remove_at,
}
use gemini_nos.Timer.Down.{smallest-IsSmallest}

abbrev pub bit : Bool → ℕ
bit b = if b then 1 else 0

unfoldable pub tally : (ℕ → Bool) → ℕ → (ℕ → ℕ) → ℕ
tally P zero nodes = 0
tally P (suc n) nodes = bit (P (nodes n)) + tally P n nodes

pub tally-ext :
    (P Q : ℕ → Bool) (n : ℕ) (nodes : ℕ → ℕ)
    → ((i : ℕ) → i < n → P (nodes i) ≡ Q (nodes i))
    → tally P n nodes ≡ tally Q n nodes
unfolding tally
tally-ext P Q zero nodes e = refl
tally-ext P Q (suc n) nodes e =
    ground (arith, e n (omega arith), tally-ext P Q n nodes (λ i h. e i (omega arith)))

pub tally-none :
    (P : ℕ → Bool) (n : ℕ) (nodes : ℕ → ℕ)
    → ((i : ℕ) → i < n → P (nodes i) ≡ false)
    → tally P n nodes ≡ 0
unfolding tally
tally-none P zero nodes e = refl
tally-none P (suc n) nodes e =
    ground (arith, e n (omega arith), tally-none P n nodes (λ i h. e i (omega arith)))

-- A node counts.
pub tally-least :
    (P : ℕ → Bool) (n i : ℕ) (nodes : ℕ → ℕ) → i < n → bit (P (nodes i)) ≤ tally P n nodes
unfolding tally
tally-least P zero i nodes h = absurd (omega arith)
tally-least P (suc n) i nodes h = elim (dec_lt i n) [
  | yes p ↦ omega (arith, tally-least P n i nodes p)
  | no p ↦ let e : i ≡ n = omega arith in omega (arith, ap (λ k. bit (P (nodes k))) e)
]

tally-update_above :
    (P : ℕ → Bool) (n i x : ℕ) (nodes : ℕ → ℕ)
    → n ≤ i
    → tally P n (update nodes i x) ≡ tally P n nodes
unfolding tally
tally-update_above P zero i x nodes h = refl
tally-update_above P (suc n) i x nodes h =
    ground (arith, tally-update_above P n i x nodes (omega arith))

tally-update :
    (P : ℕ → Bool) (n i x : ℕ) (nodes : ℕ → ℕ)
    → i < n
    → tally P n (update nodes i x) + bit (P (nodes i)) ≡ tally P n nodes + bit (P x)
unfolding tally
tally-update P zero i x nodes h = absurd (omega arith)
tally-update P (suc n) i x nodes h = elim (dec_lt i n) [
  | yes p ↦ ground (arith, tally-update P n i x nodes p)
  | no p ↦
      let e : i ≡ n = omega arith in
      ground (arith, tally-update_above P n i x nodes (omega arith), ap nodes e)
]

tally-swap :
    (P : ℕ → Bool) (n i j : ℕ) (nodes : ℕ → ℕ)
    → i < n
    → j < n
    → i ≢ j
    → tally P n (swap nodes i j) ≡ tally P n nodes
tally-swap P n i j nodes p q ne = omega (
  arith,
  tally-update P n i (nodes j) nodes p,
  tally-update P n j (nodes i) (update nodes i (nodes j)) q,
  ap (λ k. bit (P k)) (update_ne nodes (nodes j) ne),
)

up_loop-tally :
    (P : ℕ → Bool) (exp : ℕ → ℕ) (n fuel : ℕ) (nodes : ℕ → ℕ) (i : ℕ)
    → i < n
    → tally P n (up_loop exp fuel nodes i) ≡ tally P n nodes
unfolding up_loop
up_loop-tally P exp n zero nodes i h = refl
up_loop-tally P exp n (suc fuel) nodes i h = elim (Bool-cases (ltb 0 i)) [
  | inr root ↦ rw root refl
  | inl pos ↦ elim (Bool-cases (leb (exp (nodes (parent i))) (exp (nodes i)))) [
    | inl settled ↦ rw (pos, settled) refl
    | inr rises ↦
        rw (pos, rises)
          (up_loop-tally P exp n fuel (swap nodes i (parent i)) (parent i) (omega arith)
            ∙ tally-swap P n i (parent i) nodes h (omega arith) (ground arith))
  ]
]

down_loop-tally :
    (P : ℕ → Bool) (exp : ℕ → ℕ) (n fuel : ℕ) (nodes : ℕ → ℕ) (i : ℕ)
    → tally P n (down_loop exp n fuel nodes i) ≡ tally P n nodes
unfolding down_loop
down_loop-tally P exp n zero nodes i = refl
down_loop-tally P exp n (suc fuel) nodes i = elim (Bool-cases (ltb (i * 2 + 1) n)) [
  | inr leaf ↦ rw leaf refl
  | inl inner ↦
      let m = smallest exp n nodes i in
      let s = smallest-IsSmallest exp n nodes i (ground arith) in
      elim (Bool-cases (leb (exp (nodes i)) (exp (nodes m)))) [
        | inl settled ↦ rw (inner, settled) refl
        | inr sinks ↦
            rw (inner, sinks)
              (down_loop-tally P exp n fuel (swap nodes i m) m
                ∙ tally-swap P n i m nodes (ground arith) s.inside (ground (arith, s.child)))
      ]
]

tally-suc :
    (P : ℕ → Bool) (k n : ℕ) (nodes : ℕ → ℕ)
    → k ≡ n + 1
    → tally P k nodes ≡ bit (P (nodes n)) + tally P n nodes
unfolding tally
tally-suc P k n nodes e = ap (λ j. tally P j nodes) (e ∙ after)
  where
    after : n + 1 ≡ suc n
    after = omega arith

-- The last node takes the place of the first.
moved-tally :
    (P : ℕ → Bool) (n : ℕ) (nodes : ℕ → ℕ)
    → tally P n (update nodes 0 (nodes n)) + bit (P (nodes 0)) ≡ bit (P (nodes n)) + tally P n nodes
unfolding tally
moved-tally P zero nodes = omega arith
moved-tally P (suc n) nodes =
    omega (arith, tally-update P (suc n) 0 (nodes (suc n)) nodes (omega arith))

-- The timer at the root leaves the heap, and only that.
pub remove_root-tally :
    (P : ℕ → Bool) (h : TimerHeap)
    → 0 < h.size
    → tally P (remove_at h 0).size (remove_at h 0).nodes + bit (P (h.nodes 0))
      ≡ tally P h.size h.nodes
unfolding remove_at heapify_down tally
remove_root-tally P h some_timer = omega (
  arith,
  down_loop-tally P
      (expire (record h { nodes = update h.nodes 0 (h.nodes (h.size - 1)); size = h.size - 1 }))
      (h.size - 1) (h.size - 1 + 1) (update h.nodes 0 (h.nodes (h.size - 1))) 0,
  moved-tally P (h.size - 1) h.nodes,
  tally-suc P h.size (h.size - 1) h.nodes (omega arith),
)

pub insert-tally :
    (P : ℕ → Bool) (h : TimerHeap) (t : ℕ)
    → tally P (insert h t).size (insert h t).nodes ≡ bit (P t) + tally P h.size h.nodes
unfolding insert heapify_up
insert-tally P h t = omega (
  arith,
  up_loop-tally P (expire (record h { nodes = update h.nodes h.size t })) (h.size + 1) (h.size + 1)
      (update h.nodes h.size t) h.size (omega arith),
  tally-suc P (h.size + 1) h.size (update h.nodes h.size t) refl,
  ap (λ k. bit (P k)) (update_self h.nodes h.size t),
  tally-update_above P h.size h.size t h.nodes (omega arith),
)
