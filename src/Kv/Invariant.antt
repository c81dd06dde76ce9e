-- ===== src/Kv/Invariant.antt =====
-- What holds of a table between calls.
use gemini_nos.Base.{
  ℕ, zero, suc, ◌+◌, ◌≤◌, ◌<◌, ◌≡◌, ◌≢◌, refl, ap, ◌∙◌, arith, Option, none, some, update, List,
  length, count, dec_lt, u32_mod,
}
use gemini_nos.FreeStack.{entries}
use gemini_nos.Kv.{Table, invalid_idx, find, bucket_of}
use gemini_nos.Kv.Chain.{IsChain, find_in, walk-eq-find_in, second, index_in, second-find_in}

-- The number of entries in the chains of the first `n` buckets.
unfoldable pub total : (ℕ → List ℕ) → ℕ → ℕ
total chains zero = 0
total chains (suc n) = length (chains n) + total chains n

total-update_above :
    (chains : ℕ → List ℕ) (n b : ℕ) (is : List ℕ)
    → n ≤ b
    → total (update chains b is) n ≡ total chains n
unfolding total
total-update_above chains zero b is h = refl
total-update_above chains (suc n) b is h =
    ground (arith, total-update_above chains n b is (omega arith))

pub total-update :
    (chains : ℕ → List ℕ) (n b : ℕ) (is : List ℕ)
    → b < n
    → total (update chains b is) n + length (chains b) ≡ total chains n + length is
unfolding total
total-update chains zero b is h = absurd (omega arith)
total-update chains (suc n) b is h = elim (dec_lt b n) [
  | yes p ↦ ground (arith, total-update chains n b is p)
  | no p ↦
      let e : b ≡ n = omega arith in
      ground (arith, total-update_above chains n b is (omega arith), ap chains e)
]

pub length-le-total : (chains : ℕ → List ℕ) (n b : ℕ) → b < n → length (chains b) ≤ total chains n
unfolding total
length-le-total chains zero b h = absurd (omega arith)
length-le-total chains (suc n) b h = elim (dec_lt b n) [
  | yes p ↦ omega (arith, length-le-total chains n b p)
  | no p ↦ let e : b ≡ n = omega arith in omega (arith, ap (λ k. length (chains k)) e)
]

-- The table stands for the chains: bucket `b` is the chain `chains b`. No index stands twice in a
-- chain or on the free stack, nor in both, and all entries are in one of them. The keys of a bucket
-- belong there, and none stands twice.
pub record KvInv (t : Table) (chains : ℕ → List ℕ) : Type 0 where
  pub linked : (b : ℕ) → IsChain t.entry (t.first_idx b) (chains b)
  pub once : (b i : ℕ) → count i (entries t.free_stack t.free_top) + count i (chains b) ≤ 1
  pub proper : (i : ℕ) → 0 < count i (entries t.free_stack t.free_top) → i ≢ invalid_idx
  pub used : t.used_count ≡ total chains t.bucket_count
  pub all : t.free_top + t.used_count ≡ t.capacity
  pub homed : (b i : ℕ) → 0 < count i (chains b) → bucket_of t (t.entry i).key ≡ b
  pub keyed :
      (b i j : ℕ)
      → 0 < count i (chains b)
      → 0 < count j (chains b)
      → (t.entry i).key ≡ (t.entry j).key
      → i ≡ j
  pub buckets : 0 < t.bucket_count
  pub fits : t.capacity < u32_mod

module _ {t : Table} {chains : ℕ → List ℕ} (v : KvInv t chains) where
  pub bucket_of-lt : (key : List ℕ) → bucket_of t key < t.bucket_count
  unfolding bucket_of
  bucket_of-lt key = omega (arith, v.buckets)

  -- The fuel of a walk is enough: it finds what the chain of the key's bucket holds.
  pub find-eq-find_in :
      (key : List ℕ) → find t key ≡ find_in t.entry key invalid_idx (chains (bucket_of t key))
  unfolding find
  find-eq-find_in key =
      walk-eq-find_in t.entry key (t.capacity + 1) invalid_idx (t.first_idx (bucket_of t key)) _
        (omega (
          arith,
          v.used,
          v.all,
          length-le-total chains t.bucket_count (bucket_of t key) (bucket_of-lt key),
        ))
        (v.linked (bucket_of t key))

-- What a table holds under a key: the length of the value and its bytes.
abbrev pub read : Table → Option ℕ → Option (ℕ × (ℕ → ℕ))
read t none = none
read t (some i) = some ((t.entry i).val_len, (t.entry i).val)

unfoldable pub index : Table → List ℕ → Option ℕ
index t key = second (find t key)

unfoldable pub view : Table → List ℕ → Option (ℕ × (ℕ → ℕ))
unfolding index
view t key = read t (index t key)

pub index-eq-index_in :
    {t : Table} {chains : ℕ → List ℕ} (v : KvInv t chains) (key : List ℕ)
    → index t key ≡ index_in t.entry key (chains (bucket_of t key))
unfolding index
index-eq-index_in {t} v key =
    ap second (find-eq-find_in v key) ∙ second-find_in t.entry key invalid_idx _
