-- ===== src/Shm.antt =====
-- The shared memory segment of src/infra/nos_shm.c: the pool of blocks behind its header, and the
-- registry of nodes with a receive queue each. An offset is a number below the size of the segment,
-- and a block is named by its offset; its `buf` is the `nos_buffer_t` that lies behind the block
-- header. The sizes are those of an LP64 target. Mapping the segment and waiting for the magic
-- number are the system's.
pub mod Blocks
pub mod Alloc
pub mod Release
pub mod Aba
pub mod Init
mod Tests
use gemini_nos.Base.{
  ℕ, zero, suc, ◌+◌, ◌-◌, ◌*◌, ◌/◌, ◌^◌, Bool, Option, none, some, ltb, leb, ◌==◌, if◌then◌else◌,
  update, add32, sub32, u32_mod, ◌%◌,
}
use gemini_nos.Buffer.{Buffer}

-- `nos_shm_block_t`, with the buffer behind it
pub record Block : Type 0 where
  pub offset : ℕ
  pub size : ℕ
  pub ref_count : ℕ
  pub next_free : ℕ
  pub buf : Buffer

-- The pool's part of `nos_shm_header_t`, and the blocks.
pub record Heap : Type 0 where
  pub block : ℕ → Block
  pub free_list_head : ℕ
  pub total_allocated : ℕ

-- `NOS_SHM_SIZE`, `sizeof(nos_shm_header_t)`, and the three parts of a block
abbrev pub shm_size : ℕ
shm_size = 16 * 1024 * 1024

abbrev pub header_size : ℕ
header_size = 262864

abbrev pub block_header_size : ℕ
block_header_size = 16

abbrev pub buffer_size : ℕ
buffer_size = 48

abbrev pub block_size : ℕ
block_size = block_header_size + buffer_size + 4096 + 8

abbrev pub num_blocks : ℕ
num_blocks = (shm_size - header_size) / block_size

-- The loop of `init_shm_pool`: `n` blocks are left, and the next one lies at `offset`.
pub init_blocks : ℕ → ℕ → (ℕ → Block) → ℕ → Block
init_blocks zero offset block = block
init_blocks (suc n) offset block = init_blocks n (offset + block_size) (
    update block offset (record (block offset) {
      offset = offset;
      size = 4096;
      ref_count = 0;
      next_free = if n == 0 then 0 else offset + block_size;
    }))

-- `init_shm_pool`
pub init_shm_pool : (ℕ → Block) → Heap
init_shm_pool block = record {
  block = init_blocks num_blocks header_size block;
  free_list_head = header_size;
  total_allocated = 0;
}

-- What `nos_shm_buffer_alloc` writes into the buffer behind block `o`. The segment is mapped at `base`.
abbrev pub fresh_buffer : ℕ → ℕ → Buffer → Buffer
fresh_buffer base o b = record b {
  raw_data = base + o + block_header_size + buffer_size;
  data_ptr = base + o + block_header_size + buffer_size;
  capacity = 4096;
  len = 0;
  headroom = 0;
  tailroom = 4096;
  ref_cnt = 0;
  flags = 1;
}

-- The two loads of the lock-free pop: the head of the free list, and its `next_free`. `none` is the
-- `OOM` return.
pub pop_load : Heap → Option (ℕ × ℕ)
pop_load h =
    if h.free_list_head == 0
    then none
    else some (h.free_list_head, (h.block h.free_list_head).next_free)

-- The compare-and-swap of the head; `none` is a failure, after which the loop loads again.
pub cas_head : Heap → ℕ → ℕ → Option Heap
cas_head h expected next =
    if h.free_list_head == expected then some (record h { free_list_head = next }) else none

-- What follows a pop that succeeded: the block is counted and dressed.
pub claim : ℕ → Heap → ℕ → Heap
claim base h o = record h {
  total_allocated = add32 h.total_allocated 1;
  block =
      update h.block o
        (record (h.block o) { ref_count = 1; buf = fresh_buffer base o (h.block o).buf });
}

-- `nos_shm_buffer_alloc` when no other process takes a step between the loads and the swap. The
-- buffer is named by the offset of its block.
pub buffer_alloc : ℕ → Heap → ℕ → Option (ℕ × Heap)
buffer_alloc base h size = if ltb 4096 size then none else elim (pop_load h) [
  | none ↦ none
  | some (head, next) ↦ elim (cas_head h head next) [
    | none ↦ none
    | some h' ↦ some (head, claim base h' head)
  ]
]

-- One round of the lock-free push: the block is linked to the head that was loaded, and the head is
-- swapped for it.
pub push_free : Heap → ℕ → Option Heap
unfolding cas_head
push_free h o =
    let head = h.free_list_head in
    cas_head (record h { block = update h.block o (record (h.block o) { next_free = head }) }) head
      (h.block o).offset

-- `nos_shm_buffer_release` of the buffer behind block `o`, again with no step of another process
-- between the load and the swap.
pub buffer_release : Heap → ℕ → Heap
buffer_release h o =
    let b = h.block o in
    let dropped = record h {
      block = update h.block o (record b { ref_count = sub32 b.ref_count 1 });
    } in
    if b.buf.flags == 1
    then (if b.ref_count == 1
        then elim (push_free dropped o) [
          | none ↦ dropped
          | some h' ↦ record h' { total_allocated = sub32 h'.total_allocated 1 }
        ]
        else dropped)
    else h

-- `nos_shm_buffer_retain`
pub buffer_retain : Heap → ℕ → Heap
buffer_retain h o =
    let b = h.block o in
    if b.buf.flags == 1
    then record h { block = update h.block o (record b { ref_count = add32 b.ref_count 1 }) }
    else h

-- `nos_shm_ptr_to_offset` and `nos_shm_offset_to_ptr`, at addresses. A base of 0 is a segment that is
-- not mapped.
pub ptr_to_offset : ℕ → ℕ → ℕ
ptr_to_offset base ptr =
    if ptr == 0 then 0 else if base == 0 then 0 else (ptr + 2 ^ 64 - base) % u32_mod

pub offset_to_ptr : ℕ → ℕ → ℕ
offset_to_ptr base offset = if offset == 0 then 0 else if base == 0 then 0 else base + offset
