-- ===== src/Kv/Close/Freed.antt =====
-- What the end of the store frees, against the chains of its tables.
use gemini_nos.Base.{
  ℕ, zero, suc, ◌+◌, ◌<◌, ◌≤◌, ◌≡◌, refl, ap, ap₂, arith, ==_iff, ==_ne, List, [], ◌∷◌, ◌++◌,
  length,
}
use gemini_nos.Kv.{Sub, Entry, Table}
use gemini_nos.Kv.Create.{Database}
use gemini_nos.Kv.Chain.{IsChain}
use gemini_nos.Kv.Invariant.{KvInv, length-le-total}
use gemini_nos.Kv.Close.{chain_subs, bucket_subs, table_subs, db_deinit}

-- The subscriptions of the entries of a list.
pub subs_in : (ℕ → Entry) → List ℕ → List Sub
subs_in entry [] = []
subs_in entry (i ∷ is) = (entry i).sub_list ++ subs_in entry is

-- Those of the chains of `n` buckets from bucket `b` on.
pub subs_of : (ℕ → Entry) → (ℕ → List ℕ) → ℕ → ℕ → List Sub
unfolding subs_in
subs_of entry chains b zero = []
subs_of entry chains b (suc n) = subs_in entry (chains b) ++ subs_of entry chains (b + 1) n

-- Those of `n` tables from table `i` on.
pub subs_all : Database → (ℕ → ℕ → List ℕ) → ℕ → ℕ → List Sub
unfolding subs_of
subs_all d chains i zero = []
subs_all d chains i (suc n) =
    subs_of (d.table i).entry (chains i) 0 (d.table i).bucket_count ++ subs_all d chains (i + 1) n

chain_subs-eq :
    (entry : ℕ → Entry) (fuel head : ℕ) (is : List ℕ)
    → length is < fuel
    → IsChain entry head is
    → chain_subs entry fuel head ≡ subs_in entry is
unfolding chain_subs subs_in
chain_subs-eq entry zero head is f c = absurd (omega arith)
chain_subs-eq entry (suc fuel) head [] f c = rw ((==_iff _ _).1 c) refl
chain_subs-eq entry (suc fuel) head (i ∷ is) f (at, ne, rest) =
    rw (at, ==_ne ne)
      (ap (λ l. (entry i).sub_list ++ l)
        (chain_subs-eq entry fuel (entry i).next_idx is (omega arith) rest))

bucket_subs-eq :
    {t : Table} {chains : ℕ → List ℕ} (v : KvInv t chains) (b n : ℕ)
    → b + n ≤ t.bucket_count
    → bucket_subs t b n ≡ subs_of t.entry chains b n
unfolding bucket_subs subs_of
bucket_subs-eq v b zero h = refl
bucket_subs-eq {t} {chains} v b (suc n) h =
    ap₂ ◌++◌
      (chain_subs-eq t.entry (t.capacity + 1) (t.first_idx b) (chains b)
        (omega (arith, v.used, v.all, length-le-total chains t.bucket_count b (omega (arith, h))))
        (v.linked b))
      (bucket_subs-eq v (b + 1) n (omega (arith, h)))

table_subs-eq :
    (d : Database) (chains : ℕ → ℕ → List ℕ) (i n : ℕ)
    → ((k : ℕ) → k < i + n → KvInv (d.table k) (chains k))
    → table_subs d i n ≡ subs_all d chains i n
unfolding table_subs subs_all
table_subs-eq d chains i zero v = refl
table_subs-eq d chains i (suc n) v =
    ap₂ ◌++◌ (bucket_subs-eq (v i (omega arith)) 0 (d.table i).bucket_count (omega arith))
      (table_subs-eq d chains (i + 1) n (λ k l. v k (omega arith)))

-- The end of a store whose tables are in shape frees the subscriptions of all entries that are in a
-- chain, each once and in the order of the tables, buckets and chains, and leaves no table.
pub db_deinit_lem :
    (d : Database) (chains : ℕ → ℕ → List ℕ)
    → ((k : ℕ) → k < d.count → KvInv (d.table k) (chains k))
    → ((db_deinit d).0 ≡ subs_all d chains 0 d.count) × ((db_deinit d).1.count ≡ 0)
unfolding db_deinit
db_deinit_lem d chains v = (table_subs-eq d chains 0 d.count (λ k l. v k (omega (arith, l))), refl)
