-- ===== src/Kv/Create.antt =====
-- The making of tables: `nos_kv_table_create`.
pub mod Shape
use gemini_nos.Base.{
  strncpy, ℕ, zero, suc, ◌+◌, ◌==◌, Bool, ◌||◌, Option, none, some, if◌then◌else◌, ltb, leb, update,
  add32, [],
}
use gemini_nos.Base.Scan.{scan}
use gemini_nos.Kv.{Table, invalid_idx}

-- `bucket_count = 1024; while (bucket_count < capacity) bucket_count <<= 1`, with fuel.
pub grow_buckets : ℕ → ℕ → ℕ → ℕ
grow_buckets zero count capacity = count
grow_buckets (suc fuel) count capacity =
    let rest = grow_buckets fuel (add32 count count) capacity in
    if ltb count capacity then rest else count

pub fill_free : ℕ → ℕ → (ℕ → ℕ) → ℕ → ℕ
fill_free i zero stack = stack
fill_free i (suc n) stack = fill_free (suc i) n (update stack i i)

-- The table that `nos_kv_table_create` makes.
pub new_table : ℕ → ℕ → ℕ → Table
new_table key_size max_val_size capacity = record {
  key_size = key_size;
  max_val_size = max_val_size;
  capacity = capacity;
  bucket_count = grow_buckets 22 1024 capacity;
  first_idx = λ _. invalid_idx;
  entry = λ _. record { next_idx = 0; val_len = 0; sub_list = []; key = []; val = λ _. 0 };
  free_stack = fill_free 0 capacity (λ _. 0);
  free_top = capacity;
  used_count = 0;
  readers = λ _. 0;
}

-- `g_tables` and `g_table_count`; a table is named by its place, and its name by a number.
pub record Database : Type 0 where
  pub table : ℕ → Table
  pub name : ℕ → ℕ
  pub count : ℕ

abbrev pub max_tables : ℕ
max_tables = 32

-- `nos_kv_table_create`; `none` is `NULL`. Names are C strings; a table keeps 31 bytes of its own, and
-- they are compared with the whole argument.
pub table_create : Database → Option ℕ → ℕ → ℕ → ℕ → Option ℕ × Database
table_create d none key_size max_val_size capacity = (none, d)
table_create d (some name) key_size max_val_size capacity =
    if (key_size == 0) || (capacity == 0)
    then (none, d)
    else elim (scan (λ i. d.name i == name) 0 d.count) [
      | some i ↦ (some i, d)
      | none ↦ if leb max_tables d.count then (none, d) else (
        some d.count,
        record {
          table = update d.table d.count (new_table key_size max_val_size capacity);
          name = update d.name d.count (strncpy 31 name);
          count = d.count + 1;
        },
      )
    ]
