-- ===== src/Memory.antt =====
-- The two kinds of buffer behind one pointer type, and the functions of src/core/nos_buffer.c that
-- tell them apart by `flags`: a chunk of the pool of this process, or a block of the shared segment.
pub mod Counts
pub mod Pooled
pub mod Tests
use gemini_nos.Base.{
  ℕ, List, [], ◌∷◌, Option, none, some, ◌==◌, if◌then◌else◌, update, add32, sub32,
}
use gemini_nos.Buffer.{Buffer}
use gemini_nos.Pool.{Bin, Pool, give_back, reset}
use gemini_nos.Shm.{Block, Heap}
use gemini_nos.Shm

-- `nos_buffer_t *`: buffer `j` of bin `i`, or the buffer behind the block at an offset.
pub data BufPtr : Type 0 where
  pooled : ℕ → ℕ → BufPtr
  shared : ℕ → BufPtr

pub record Memory : Type 0 where
  pub pool : Pool
  pub heap : Heap

-- `*buf`
abbrev pub buffer_at : Memory → BufPtr → Buffer
buffer_at m (pooled i j) = (m.pool.bins i).buffers j
buffer_at m (shared o) = (m.heap.block o).buf

-- `*buf = b`
abbrev pub write_buffer : Memory → BufPtr → Buffer → Memory
write_buffer m (pooled i j) b = record m {
  pool = record (m.pool) {
    bins =
        update m.pool.bins i
          (record (m.pool.bins i) { buffers = update (m.pool.bins i).buffers j b });
  };
}
write_buffer m (shared o) b = record m {
  heap = record (m.heap) { block = update m.heap.block o (record (m.heap.block o) { buf = b }) };
}

-- The calls of nos_shm.c. They are reached for a buffer with the flag of a shared one, which no chunk
-- of the pool has.
shm_retain : Memory → BufPtr → Memory
shm_retain m (pooled i j) = m
shm_retain m (shared o) = record m { heap = Shm.buffer_retain m.heap o }

shm_release : Memory → BufPtr → Memory
shm_release m (pooled i j) = m
shm_release m (shared o) = record m { heap = Shm.buffer_release m.heap o }

-- `nos_buffer_retain`; `none` is `NULL`.
pub retain : Memory → Option BufPtr → Memory
unfolding shm_retain
retain m none = m
retain m (some p) =
    let b = buffer_at m p in
    if b.flags == 1
    then shm_retain m p
    else write_buffer m p (record b { ref_cnt = add32 b.ref_cnt 1 })

-- The branch of `nos_buffer_release` for the last reference.
pub recycle : Memory → BufPtr → Memory
recycle m p =
    let b = buffer_at m p in
    let bin = give_back (m.pool.bins b.bin_idx) b.pool_idx in
    let m' = record m { pool = record (m.pool) { bins = update m.pool.bins b.bin_idx bin } } in
    write_buffer m' p (reset b)

-- `nos_buffer_release`
pub release : Memory → Option BufPtr → Memory
unfolding shm_release recycle
release m none = m
release m (some p) =
    let b = buffer_at m p in
    let m' = write_buffer m p (record b { ref_cnt = sub32 b.ref_cnt 1 }) in
    if b.flags == 1 then shm_release m p else if b.ref_cnt == 1 then recycle m' p else m'

-- `nos_buffer_release` of the buffers of a list, in turn.
unfoldable pub release_all : List BufPtr → Memory → Memory
release_all [] m = m
release_all (buf ∷ bufs) m = release_all bufs (release m (some buf))
