-- ===== src/Memory/Tests.antt =====
-- A node with one bin of two chunks, the first of which is out.
use gemini_nos.Base.{
  ℕ, ◌+◌, ◌≡◌, refl, arith, some, ◌<◌, ◌*◌, ◌==◌, if◌then◌else◌, ◌∷◌, [], subst, sym, Bool-cases,
  inl, inr,
}
use gemini_nos.Buffer.{Buffer}
use gemini_nos.FreeStack.{entries}
use gemini_nos.Pool.{Bin, Pool}
use gemini_nos.Pool.Invariant.{IsChunk, BinInv, PoolInv}
use gemini_nos.Memory.{Memory, pooled, release, buffer_at}
use gemini_nos.Memory.Pooled.{release_recycles, SameElsewhere}

-- Buffer `j` of the bin, with `n` references.
abbrev pub chunk : ℕ → ℕ → Buffer
chunk n j = record {
  raw_data = 4096 + j * 64;
  data_ptr = 4096 + j * 64;
  capacity = 64;
  len = 0;
  headroom = 0;
  tailroom = 64;
  ref_cnt = n;
  bin_idx = 0;
  pool_idx = j;
  flags = 0;
}

-- A bin whose chunk 0 has `n` references.
abbrev pub small_bin : ℕ → Bin
small_bin n = record {
  chunk_size = 64;
  chunk_count = 2;
  buffers = λ j. if j == 0 then chunk n j else chunk 0 j;
  raw_mem = 4096;
  free_stack = λ _. 1;
  free_top = 1;
  used_count = 1;
  peak_count = 1;
}

abbrev pub small_pool : ℕ → Pool
small_pool n = record { bins = λ _. small_bin n; bin_count = 1 }

abbrev pub memory_with : ℕ → Memory
memory_with n = record {
  pool = small_pool n;
  heap = record {
    block = λ _. record { offset = 0; size = 0; ref_count = 0; next_free = 0; buf = chunk 0 0 };
    free_list_head = 0;
    total_allocated = 0;
  };
}

abbrev pub node_memory : Memory
node_memory = memory_with 1

chunk-IsChunk : (n j : ℕ) → j < 2 → IsChunk 0 4096 64 j (chunk n j)
chunk-IsChunk n j h = record {
  place = refl;
  whole = refl;
  home = refl;
  index = refl;
  pooled = refl;
  layout = record { parts = refl; pointer = omega arith; small = omega arith };
}

small_bin-BinInv : (n : ℕ) → 0 < n → BinInv 0 (small_bin n)
small_bin-BinInv n h = record {
  free = λ j. ground arith;
  total = refl;
  used = ground arith;
  peak = omega arith;
  chunks = λ j p. elim (Bool-cases (j == 0)) [
    | inl e ↦ rw e (chunk-IsChunk n j p)
    | inr e ↦ rw e (chunk-IsChunk 0 j p)
  ];
  size_fits = omega arith;
  count_fits = omega arith;
}

pub small_pool-PoolInv : (n : ℕ) → 0 < n → PoolInv (small_pool n)
small_pool-PoolInv n h = record {
  bins = λ i p.
      let e : i ≡ 0 = omega arith in
      subst (λ k. BinInv k (small_bin n)) (sym e) (small_bin-BinInv n h);
  few = omega arith;
}

release_recycles_example :
    let m' = release node_memory (some (pooled 0 0)) in
    PoolInv m'.pool
    × (entries (m'.pool.bins 0).free_stack (m'.pool.bins 0).free_top ≡ 0 ∷ 1 ∷ [])
    × ((buffer_at m' (pooled 0 0)).ref_cnt ≡ 0)
    × ((buffer_at m' (pooled 0 0)).len ≡ 0)
    × ((buffer_at m' (pooled 0 0)).headroom ≡ 0)
    × SameElsewhere 0 0 node_memory m'
release_recycles_example =
    release_recycles node_memory 0 0 (small_pool-PoolInv 1 (omega arith)) (omega arith)
      (omega arith) (omega arith) refl
