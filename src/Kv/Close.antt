-- ===== src/Kv/Close.antt =====
-- The end of the store, `nos_kv_db_deinit`, which frees the subscriptions of every table, and the
-- memory in use, `nos_kv_get_total_mem_usage`.
pub mod Freed
use gemini_nos.Base.{ℕ, zero, suc, ◌+◌, ◌*◌, ◌==◌, if◌then◌else◌, List, [], ◌++◌}
use gemini_nos.Kv.{Sub, Entry, Table, invalid_idx}
use gemini_nos.Kv.Create.{Database}

-- The subscriptions freed along a chain from index `curr`, in order, with fuel.
pub chain_subs : (ℕ → Entry) → ℕ → ℕ → List Sub
chain_subs entry zero curr = []
chain_subs entry (suc fuel) curr =
    let rest = chain_subs entry fuel (entry curr).next_idx in
    if curr == invalid_idx then [] else (entry curr).sub_list ++ rest

-- The loop over the buckets of a table, from bucket `b` on
pub bucket_subs : Table → ℕ → ℕ → List Sub
unfolding chain_subs
bucket_subs t b zero = []
bucket_subs t b (suc n) =
    chain_subs t.entry (t.capacity + 1) (t.first_idx b) ++ bucket_subs t (b + 1) n

-- The loop over the tables, from table `i` on
pub table_subs : Database → ℕ → ℕ → List Sub
unfolding bucket_subs
table_subs d i zero = []
table_subs d i (suc n) =
    bucket_subs (d.table i) 0 (d.table i).bucket_count ++ table_subs d (i + 1) n

-- `nos_kv_db_deinit`: the subscriptions that it frees, and the store without a table.
pub db_deinit : Database → List Sub × Database
unfolding table_subs
db_deinit d = (table_subs d 0 d.count, record d { count = 0 })

-- `sizeof(nos_kv_table_t)`, `sizeof(nos_kv_bucket_t)`, and the `entry_size` of a table
pub record Sizes : Type 0 where
  pub table : ℕ
  pub bucket : ℕ
  pub entry : Table → ℕ

-- The loop of `nos_kv_get_total_mem_usage` from table `i` on
pub total_mem_usage : Sizes → Database → ℕ → ℕ → ℕ
total_mem_usage z d i zero = 0
total_mem_usage z d i (suc n) =
    let t = d.table i in
    z.table
    + t.bucket_count * z.bucket
    + t.capacity * (z.entry t + 4)
    + total_mem_usage z d (i + 1) n
