-- ===== src/Pool.antt =====
-- The buffer pool of src/core/nos_buffer.c: bins of chunks of one size, each with a stack of the
-- indices of its free chunks. `free_top` here is the number of entries on that stack, one more than
-- the field of the source. `buffers`, `free_stack` and `bins` are arrays; what is past the end of
-- them is never read. The pool's lock is held throughout each function.
pub mod Invariant
pub mod Init
pub mod Alloc
mod Tests
use gemini_nos.Base.{
  ℕ, zero, suc, ◌+◌, ◌-◌, ◌*◌, ◌/◌, Bool, ◌&&◌, Option, none, some, ltb, leb, ◌==◌, if◌then◌else◌,
  update, add32, sub32, mul32, Status, nos_ok, nos_err,
}
use gemini_nos.Base.Scan.{scan}
use gemini_nos.Buffer.{Buffer}

-- `nos_buffer_pool_def_t` of include/nos_manifest.h
pub record PoolDef : Type 0 where
  pub chunk_size : ℕ
  pub chunk_count : ℕ

-- `nos_buffer_bin_t`
pub record Bin : Type 0 where
  pub chunk_size : ℕ
  pub chunk_count : ℕ
  pub buffers : ℕ → Buffer
  pub raw_mem : ℕ
  pub free_stack : ℕ → ℕ
  pub free_top : ℕ
  pub used_count : ℕ
  pub peak_count : ℕ

-- `g_bins` and `g_bin_count`
pub record Pool : Type 0 where
  pub bins : ℕ → Bin
  pub bin_count : ℕ

abbrev pub max_bins : ℕ
max_bins = 8

-- `(n + CACHE_LINE_SIZE - 1) & ~(CACHE_LINE_SIZE - 1)`
pub align_to_cache_line : ℕ → ℕ
align_to_cache_line n = add32 n 63 / 64 * 64

-- What `calloc` leaves.
abbrev pub zero_buffer : Buffer
zero_buffer = record {
  raw_data = 0;
  data_ptr = 0;
  capacity = 0;
  len = 0;
  headroom = 0;
  tailroom = 0;
  ref_cnt = 0;
  bin_idx = 0;
  pool_idx = 0;
  flags = 0;
}

-- One round of the inner loop of `nos_buffer_init_pool`.
pub init_chunk : ℕ → ℕ → Bin → Bin
init_chunk i j bin = record bin {
  buffers = update bin.buffers j (record (bin.buffers j) {
    raw_data = bin.raw_mem + mul32 j bin.chunk_size;
    data_ptr = bin.raw_mem + mul32 j bin.chunk_size;
    capacity = bin.chunk_size;
    len = 0;
    headroom = 0;
    tailroom = bin.chunk_size;
    bin_idx = i;
    pool_idx = j;
    ref_cnt = 0;
  });
  free_stack = update bin.free_stack bin.free_top j;
  free_top = bin.free_top + 1;
}

-- The inner loop, over the chunks from `j` on.
pub init_chunks : ℕ → ℕ → ℕ → Bin → Bin
init_chunks i j zero bin = bin
init_chunks i j (suc n) bin = init_chunks i (suc j) n (init_chunk i j bin)

-- The bin that the inner loop starts from. `raw` is the block that `posix_memalign` gave.
abbrev pub empty_bin : ℕ → PoolDef → Bin
empty_bin raw def = record {
  chunk_size = align_to_cache_line def.chunk_size;
  chunk_count = def.chunk_count;
  buffers = λ _. zero_buffer;
  raw_mem = raw;
  free_stack = λ _. 0;
  free_top = 0;
  used_count = 0;
  peak_count = 0;
}

pub init_bin : ℕ → ℕ → PoolDef → Bin
init_bin i raw def = init_chunks i 0 def.chunk_count (empty_bin raw def)

-- The outer loop from bin `i` on. `raw i` is the block that `posix_memalign` gives for bin `i`.
pub init_bins : (ℕ → ℕ) → (ℕ → PoolDef) → ℕ → ℕ → Pool → Pool
init_bins raw config i zero p = p
init_bins raw config i (suc n) p =
    let rest = init_bins raw config (suc i) n (record p {
      bins = update p.bins i (init_bin i (raw i) (config i));
      bin_count = p.bin_count + 1;
    }) in
    if ltb 0 (config i).chunk_size then rest else p

-- `nos_buffer_init_pool`
pub init_pool : (ℕ → ℕ) → Option (ℕ → PoolDef) → Pool → Status × Pool
init_pool raw none p = (nos_err, p)
init_pool raw (some config) p =
    if ltb 0 p.bin_count then (nos_ok, p) else (nos_ok, init_bins raw config 0 max_bins p)

-- `nos_buffer_deinit_pool`: each bin is zeroed.
pub deinit_pool : Pool → Pool
deinit_pool p = record { bins = λ i. if ltb i p.bin_count then freed else p.bins i; bin_count = 0 }
  where
    freed : Bin
    freed = record {
      chunk_size = 0;
      chunk_count = 0;
      buffers = λ _. zero_buffer;
      raw_mem = 0;
      free_stack = λ _. 0;
      free_top = 0;
      used_count = 0;
      peak_count = 0;
    }

-- The test that the loop of `nos_buffer_alloc` makes on a bin.
abbrev pub fits : Pool → ℕ → ℕ → Bool
fits p total i = leb total (p.bins i).chunk_size && ltb 0 (p.bins i).free_top

-- The buffer as `nos_buffer_alloc` hands it out.
abbrev pub dress : Buffer → ℕ → ℕ → Buffer
dress b size headroom = record b {
  ref_cnt = 1;
  headroom = headroom;
  data_ptr = b.raw_data + headroom;
  len = size;
  tailroom = sub32 (sub32 b.capacity headroom) size;
}

-- The body of that loop for the bin that fits: the index on top of the free stack is taken off.
pub take_chunk : Bin → ℕ → ℕ → ℕ × Bin
take_chunk bin size headroom =
    let idx = bin.free_stack (bin.free_top - 1) in
    let used = add32 bin.used_count 1 in
    (
      idx,
      record bin {
        free_top = bin.free_top - 1;
        buffers = update bin.buffers idx (dress (bin.buffers idx) size headroom);
        used_count = used;
        peak_count = if ltb bin.peak_count used then used else bin.peak_count;
      },
    )

-- `nos_buffer_alloc`. The buffer handed out is named by its bin and its index there.
pub alloc : Pool → ℕ → ℕ → Option ((ℕ × ℕ) × Pool)
alloc p size headroom = elim (scan (fits p (add32 size headroom)) 0 p.bin_count) [
  | none ↦ none
  | some i ↦
      let (idx, bin) = take_chunk (p.bins i) size headroom in
      some ((i, idx), record p { bins = update p.bins i bin })
]

-- What `nos_buffer_release` does to the bin when the last reference goes: the chunk's index goes back
-- on the stack.
unfoldable pub give_back : Bin → ℕ → Bin
give_back bin pool_idx = record bin {
  free_stack = update bin.free_stack bin.free_top pool_idx;
  free_top = bin.free_top + 1;
  used_count = sub32 bin.used_count 1;
}

-- And to the buffer.
abbrev pub reset : Buffer → Buffer
reset b = record b { data_ptr = b.raw_data; len = 0; headroom = 0; tailroom = b.capacity }

-- `sizeof(nos_buffer_bin_t)` and `sizeof(nos_buffer_t)`
abbrev pub bin_size : ℕ
bin_size = 48

abbrev pub buffer_size : ℕ
buffer_size = 48

-- The loop of `nos_buffer_get_mem_usage`, over the first `n` bins. The products are `size_t`.
pub mem_usage : Pool → ℕ → ℕ
mem_usage p zero = 0
mem_usage p (suc n) =
    mem_usage p n
    + bin_size
    + (p.bins n).chunk_count * ((p.bins n).chunk_size + buffer_size)
    + (p.bins n).chunk_count * 4
