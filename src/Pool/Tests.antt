-- ===== src/Pool/Tests.antt =====
-- A pool with no bin, and one with a single bin of two chunks, one of them out.
use gemini_nos.Base.{ℕ, refl, arith, none, some, Option, ◌==◌, if◌then◌else◌}
use gemini_nos.Base.Scan.{scan}
use gemini_nos.Pool.{PoolDef, Pool, alloc, zero_buffer, align_to_cache_line, take_chunk}
use gemini_nos.Pool.Invariant.{PoolInv}
use gemini_nos.Pool.Init.{IsSized}
use gemini_nos.Pool.Alloc.{IsGranted, alloc-IsGranted}
use gemini_nos.Memory.Tests.{small_pool, small_pool-PoolInv}

-- One bin of four chunks, and the end of the list.
abbrev config : ℕ → PoolDef
config i = record { chunk_size = if i == 0 then 100 else 0; chunk_count = if i == 0 then 4 else 0 }

abbrev raw : ℕ → ℕ
raw i = 4096

abbrev no_bins : Pool
no_bins = record {
  bins = λ _. record {
    chunk_size = 0;
    chunk_count = 0;
    buffers = λ _. zero_buffer;
    raw_mem = 0;
    free_stack = λ _. 0;
    free_top = 0;
    used_count = 0;
    peak_count = 0;
  };
  bin_count = 0;
}

no_bins-PoolInv : PoolInv no_bins
no_bins-PoolInv = record { bins = λ i p. absurd (omega arith); few = omega arith }

config-IsSized : (k : ℕ) → IsSized (config k)
unfolding align_to_cache_line
config-IsSized k = ground arith

abbrev given : (ℕ × ℕ) × Pool
given = fst_of (alloc (small_pool 1) 20 8)
  where
    fst_of : Option ((ℕ × ℕ) × Pool) → (ℕ × ℕ) × Pool
    fst_of none = ((0, 0), no_bins)
    fst_of (some r) = r

alloc-IsGranted_example :
    PoolInv given.1 × IsGranted (small_pool 1) given.1 20 8 given.0.0 given.0.1
unfolding alloc take_chunk scan
alloc-IsGranted_example =
    alloc-IsGranted (small_pool 1) 20 8 (small_pool-PoolInv 1 (omega arith)) (omega arith) given
      refl
