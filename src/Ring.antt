-- ===== src/Ring.antt =====
-- The circular queues of the program keep a `head` and a `tail` below the size of a fixed array, are
-- empty at `head == tail`, and leave one slot unused. They are the message queue of a thread
-- (src/core/nos_scheduler.c), the send queue of a connection (src/infra/nos_ipc_p2p.c) and the shared
-- queue of a node (src/infra/nos_shm.c). Here is what the three share: the list that such a queue
-- stands for, and what a write at the tail and a step of the head do to it.
use native.Mathlib.Nat.{mod-eq_of_lt, mod-eq-sub-mod}
use gemini_nos.Base.{
  ℕ, zero, suc, ◌+◌, ◌-◌, ◌%◌, ◌<◌, ◌≡◌, refl, ap₂, ap, sym, ◌∙◌, ◌≢◌, List, [], ◌∷◌, ◌++◌, arith,
  ltb, leb, dec_lt, if◌then◌else◌, update, update_ne, length,
}

-- An index that may have passed the end once.
abbrev pub wrap : ℕ → ℕ → ℕ
wrap cap i = if ltb i cap then i else i - cap

pub mod-eq-wrap : (cap i : ℕ) → i < cap + cap → i % cap ≡ wrap cap i
mod-eq-wrap cap i h = elim (dec_lt i cap) [
  | yes p ↦ ground (arith, mod-eq_of_lt p)
  | no p ↦ ground (
    arith,
    mod-eq-sub-mod {n = i} {m = cap} (omega arith),
    mod-eq_of_lt {n = i - cap} {m = cap} (omega arith),
  )
]

-- How many entries stand between `head` and `tail`.
unfoldable pub used : ℕ → ℕ → ℕ → ℕ
used cap h t = if leb h t then t - h else cap - (h - t)

module _ (cap : ℕ) {h t : ℕ} (hh : h < cap) (ht : t < cap) where
  pub used-lt : used cap h t < cap
  unfolding used
  used-lt = ground arith

  -- A step of the tail that does not meet the head makes the queue longer by one.
  pub used-push : wrap cap (t + 1) ≢ h → used cap h (wrap cap (t + 1)) ≡ suc (used cap h t)
  unfolding used
  used-push room = ground arith

  pub tail-eq-wrap : t ≡ wrap cap (h + used cap h t)
  unfolding used
  tail-eq-wrap = ground arith

  -- A step of the head makes a queue that is not empty shorter by one.
  pub used-pop : h ≢ t → used cap h t ≡ suc (used cap (wrap cap (h + 1)) t)
  unfolding used
  used-pop ne = ground arith

pub used_self : (cap h : ℕ) → used cap h h ≡ 0
unfolding used
used_self cap h = ground arith

module _ {ℓ} {A : Type ℓ} (cap : ℕ) where
  -- The `n` entries from index `h` on, going round at `cap`.
  unfoldable pub window : (ℕ → A) → ℕ → ℕ → List A
  window a h zero = []
  window a h (suc n) = a h ∷ window a (wrap cap (h + 1)) n

  -- The entries of a queue, oldest first.
  unfoldable pub contents : (ℕ → A) → ℕ → ℕ → List A
  contents a h t = window a h (used cap h t)

  length-window : (a : ℕ → A) (h n : ℕ) → length (window a h n) ≡ n
  unfolding window
  length-window a h zero = refl
  length-window a h (suc n) = ap suc (length-window a (wrap cap (h + 1)) n)

  pub length-contents : (a : ℕ → A) (h t : ℕ) → length (contents a h t) ≡ used cap h t
  unfolding contents
  length-contents a h t = length-window a h (used cap h t)

  -- A write at the end of a window appends.
  window-update :
      (a : ℕ → A) (x : A) (n h t : ℕ)
      → h < cap
      → n < cap
      → t ≡ wrap cap (h + n)
      → window (update a t x) h (suc n) ≡ window a h n ++ x ∷ []
  unfolding window
  window-update a x zero h t hh hn e = ground arith
  window-update a x (suc n) h t hh hn e =
      ap₂ ◌∷◌ (ground arith)
        (window-update a x n (wrap cap (h + 1)) t (ground arith) (omega arith) (ground arith))

  module _ (a : ℕ → A) {h t : ℕ} (hh : h < cap) (ht : t < cap) where
    -- An entry written at the tail of a queue that is not full goes to the end.
    pub contents-push :
        (x : A)
        → wrap cap (t + 1) ≢ h
        → contents (update a t x) h (wrap cap (t + 1)) ≡ contents a h t ++ x ∷ []
    unfolding contents
    contents-push x room =
        rw (used-push cap hh ht room)
          (window-update a x (used cap h t) h t hh (used-lt cap hh ht) (tail-eq-wrap cap hh ht))

    -- A queue that is not empty is the entry at its head and the queue behind it.
    pub contents-pop : h ≢ t → contents a h t ≡ a h ∷ contents a (wrap cap (h + 1)) t
    unfolding contents window
    contents-pop ne = rw (used-pop cap hh ht ne)

  -- A write to an entry that a window does not cover leaves the window alone. The window runs from
  -- `k` places behind that entry.
  window-update_outside :
      (a : ℕ → A) (x : A) (n k h : ℕ)
      → h < cap
      → k + n < cap
      → window (update a h x) (wrap cap (h + 1 + k)) n ≡ window a (wrap cap (h + 1 + k)) n
  unfolding window
  window-update_outside a x zero k h hh hn = refl
  window-update_outside a x (suc n) k h hh hn =
      let step : wrap cap (wrap cap (h + 1 + k) + 1) ≡ wrap cap (h + 1 + suc k) = ground arith in
      let ne : h ≢ wrap cap (h + 1 + k) = ground arith in
      ap₂ ◌∷◌ (update_ne a x ne) (
        ap (λ i. window (update a h x) i n) step
        ∙ window-update_outside a x n (suc k) h hh (omega arith)
        ∙ ap (λ i. window a i n) (sym step))

  module _ (a : ℕ → A) {h t : ℕ} (hh : h < cap) (ht : t < cap) where
    -- Clearing the entry that has just left a queue leaves the rest alone.
    pub contents-update_outside :
        (x : A)
        → h ≢ t
        → contents (update a h x) (wrap cap (h + 1)) t ≡ contents a (wrap cap (h + 1)) t
    unfolding contents
    contents-update_outside x ne =
        let e : h + 1 + 0 ≡ h + 1 = omega arith in
        ap (λ i. window (update a h x) (wrap cap i) (used cap (wrap cap (h + 1)) t)) (sym e)
        ∙ window-update_outside a x (used cap (wrap cap (h + 1)) t) 0 h hh
            (omega (arith, used-pop cap hh ht ne, used-lt cap hh ht))
        ∙ ap (λ i. window a (wrap cap i) (used cap (wrap cap (h + 1)) t)) e

  pub contents_empty : (a : ℕ → A) (h : ℕ) → contents a h h ≡ []
  unfolding contents window
  contents_empty a h = rw (used_self cap h)
