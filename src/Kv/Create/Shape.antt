-- ===== src/Kv/Create/Shape.antt =====
-- What `nos_kv_table_create` makes: a table in shape that holds nothing.
use gemini_nos.Base.{
  ℕ, zero, suc, ◌+◌, ◌*◌, ◌≤◌, ◌<◌, ◌≡◌, ◌⊎◌, inl, inr, refl, ap, arith, update, none, List, [],
  count, add32, sym, dec_lt, ltb, if◌then◌else◌,
}
use gemini_nos.FreeStack.{entries}
use gemini_nos.Kv.{Table}
use gemini_nos.Kv.Invariant.{KvInv, total, view, read, index, index-eq-index_in}
use gemini_nos.Kv.Create.{grow_buckets, fill_free, new_table}

-- Where the doubling stops: at the first power that is large enough.
pub record IsGrown (count capacity result : ℕ) : Type 0 where
  pub enough : capacity ≤ result
  pub kept : count ≤ result
  pub tight : (result ≡ count) ⊎ (result < 2 * capacity)

-- `c` doubled `fuel` times.
doubled : ℕ → ℕ → ℕ
doubled zero c = c
doubled (suc fuel) c = doubled fuel (c + c)

grow_buckets-IsGrown :
    (fuel c capacity : ℕ)
    → 0 < c
    → capacity ≤ 2147483648
    → capacity ≤ doubled fuel c
    → IsGrown c capacity (grow_buckets fuel c capacity)
unfolding grow_buckets doubled
grow_buckets-IsGrown zero c capacity h g e = record {
  enough = e;
  kept = omega arith;
  tight = inl refl;
}
grow_buckets-IsGrown (suc fuel) c capacity h g e = elim (dec_lt c capacity) [
  | yes l ↦
      let same : add32 c c ≡ c + c = omega arith in
      let rest = grow_buckets-IsGrown fuel (c + c) capacity (omega arith) g e in
      let again = ap (λ n. grow_buckets fuel n capacity) same in
      record {
        enough = ground (arith, again, rest.enough);
        kept = ground (arith, again, rest.kept);
        tight = inr (ground (arith, again, rest.tight));
      }
  | no r ↦ record { enough = ground arith; kept = ground arith; tight = inl (ground arith) }
]

fill_free-at :
    (i n : ℕ) (stack : ℕ → ℕ) (k : ℕ)
    → k < i + n
    → ((j : ℕ) → j < i → stack j ≡ j)
    → fill_free i n stack k ≡ k
unfolding fill_free
fill_free-at i zero stack k h old = old k (omega arith)
fill_free-at i (suc n) stack k h old =
    fill_free-at (suc i) n (update stack i i) k (omega arith) (λ j l. ground (arith, old j))

count-identity :
    (stack : ℕ → ℕ) (n i : ℕ)
    → ((j : ℕ) → j < n → stack j ≡ j)
    → count i (entries stack n) ≡ (if ltb i n then 1 else 0)
count-identity stack zero i same = ground arith
count-identity stack (suc n) i same =
    ground (arith, count-identity stack n i (λ j l. same j (omega arith)), same n (omega arith))

total-empty : (n : ℕ) → total (λ _. []) n ≡ 0
unfolding total
total-empty zero = refl
total-empty (suc n) = omega (arith, total-empty n)

-- What the making of a table promises: as many buckets as entries or more, yet not twice as many
-- unless there are 1024, the invariant with no entry in any chain, and no value under any key.
pub record IsNew (t : Table) (capacity : ℕ) : Type 0 where
  pub grown : IsGrown 1024 capacity t.bucket_count
  pub shape : KvInv t (λ _. [])
  pub empty : (key : List ℕ) → view t key ≡ none

module _ (key_size max_val_size capacity : ℕ) (h : capacity ≤ 2147483648) where
  t : Table
  t = new_table key_size max_val_size capacity

  grown : IsGrown 1024 capacity t.bucket_count
  unfolding t new_table doubled
  grown = grow_buckets-IsGrown 22 1024 capacity (omega arith) h (omega arith)

  free_once :
      (i : ℕ) → count i (entries t.free_stack t.free_top) ≡ (if ltb i capacity then 1 else 0)
  unfolding t new_table
  free_once i =
      count-identity t.free_stack capacity i
        (λ j l. fill_free-at 0 capacity (λ _. 0) j (omega arith) (λ k e. absurd (omega arith)))

  new_table-KvInv : KvInv t (λ _. [])
  unfolding t new_table
  new_table-KvInv = record {
    linked = λ b. refl;
    once = λ b i. ground (arith, free_once i);
    proper = λ i p e. ground (arith, free_once i);
    used = sym (total-empty _);
    all = omega arith;
    homed = λ b i p. absurd (omega arith);
    keyed = λ b i j p. absurd (omega arith);
    buckets = omega (arith, grown.kept);
    fits = omega arith;
  }

  -- A table that `nos_kv_table_create` makes for at most 2^31 entries has a bucket count between its
  -- capacity and twice that, 1024 at the least; it is in shape, and no key has a value in it.
  pub new_table-IsNew : IsNew (new_table key_size max_val_size capacity) capacity
  unfolding t view index
  new_table-IsNew = record {
    grown = grown;
    shape = new_table-KvInv;
    empty = λ key. ap (read t) (index-eq-index_in new_table-KvInv key);
  }

pub new_table-room :
    (key_size max_val_size capacity : ℕ)
    → let t = new_table key_size max_val_size capacity in
      (t.max_val_size ≡ max_val_size) × (t.free_top ≡ capacity)
unfolding new_table
new_table-room key_size max_val_size capacity = (refl, refl)
