-- ===== src/FreeStack.antt =====
-- `free_stack` of a buffer bin (src/core/nos_buffer.c) and of a KV table (src/infra/db/nos_kv.c): an
-- array used as a stack of the indices that are free, `stack[0..top)`.
use gemini_nos.Base.{
  ℕ, zero, suc, ◌+◌, ◌-◌, ◌≤◌, ◌<◌, ◌≡◌, refl, ap, List, [], ◌∷◌, arith, update, length, ap₂,
}

-- The entries of the stack, the top one first.
abbrev pub entries : (ℕ → ℕ) → ℕ → List ℕ
entries stack zero = []
entries stack (suc n) = stack n ∷ entries stack n

pub entries-update :
    (stack : ℕ → ℕ) (n k i : ℕ) → n ≤ k → entries (update stack k i) n ≡ entries stack n
entries-update stack zero k i h = refl
entries-update stack (suc n) k i h =
    ap₂ ◌∷◌ (ground arith) (entries-update stack n k i (omega arith))

-- A push puts the entry on top of the others.
pub entries-push :
    (stack : ℕ → ℕ) (top i : ℕ) → entries (update stack top i) (top + 1) ≡ i ∷ entries stack top
entries-push stack top i =
    let e : top + 1 ≡ suc top = omega arith in
    rw e (ap₂ ◌∷◌ (ground arith) (entries-update stack top top i (omega arith)))

-- The entry below the top of a stack that is not empty.
pub entries-pop :
    (stack : ℕ → ℕ) (top : ℕ)
    → 0 < top
    → entries stack top ≡ stack (top - 1) ∷ entries stack (top - 1)
entries-pop stack zero h = absurd (omega arith)
entries-pop stack (suc n) h = let e : suc n - 1 ≡ n = omega arith in rw e refl

pub length-entries : (stack : ℕ → ℕ) (top : ℕ) → length (entries stack top) ≡ top
length-entries stack zero = refl
length-entries stack (suc n) = ap suc (length-entries stack n)
