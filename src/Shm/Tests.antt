-- ===== src/Shm/Tests.antt =====
-- The segment as `init_shm_pool` leaves it, and after a first allocation.
use gemini_nos.Base.{ℕ, ◌+◌, ◌≡◌, ◌≢◌, refl, arith, some, List, ◌∷◌, true}
use gemini_nos.Shm.{
  Block, Heap, header_size, block_size, num_blocks, init_shm_pool, buffer_alloc, buffer_release,
  buffer_retain, pop_load, cas_head, claim,
}
use gemini_nos.Shm.Blocks.{HeapInv, is_slot}
use gemini_nos.Shm.Init.{slots, init_shm_pool-HeapInv}
use gemini_nos.Shm.Alloc.{popped, popped-HeapInv, buffer_alloc_grants}
use gemini_nos.Shm.Release.{buffer_retain-HeapInv, buffer_release_last}
use gemini_nos.Shm.Aba.{aba_reissues_block}

abbrev blank : ℕ → Block
blank o = record {
  offset = 0;
  size = 0;
  ref_count = 0;
  next_free = 0;
  buf = record {
    raw_data = 0;
    data_ptr = 0;
    capacity = 0;
    len = 0;
    headroom = 0;
    tailroom = 0;
    ref_cnt = 0;
    bin_idx = 0;
    pool_idx = 0;
    flags = 0;
  };
}

abbrev fresh : Heap
fresh = init_shm_pool blank

abbrev second : ℕ
second = header_size + block_size

abbrev beyond : List ℕ
beyond = slots 3960 (header_size + block_size + block_size)

init_shm_pool_example : HeapInv fresh (slots num_blocks header_size)
init_shm_pool_example = init_shm_pool-HeapInv blank

fresh-HeapInv : HeapInv fresh (header_size ∷ second ∷ beyond)
unfolding slots
fresh-HeapInv = init_shm_pool-HeapInv blank

-- After a first allocation, and after a second reference to the block that it gave.
abbrev one_out : Heap
one_out = popped 0 fresh header_size

one_out-HeapInv : HeapInv one_out (second ∷ beyond)
one_out-HeapInv = popped-HeapInv 0 fresh-HeapInv

one_out-count : (one_out.block header_size).ref_count ≡ 1
unfolding claim
one_out-count = refl

first_is_slot : is_slot header_size ≡ true
first_is_slot = ground arith

abbrev twice_out : Heap
twice_out = buffer_retain one_out header_size

retained :
    HeapInv twice_out (second ∷ beyond)
    × ((twice_out.block header_size).ref_count ≡ (one_out.block header_size).ref_count + 1)
retained =
    buffer_retain-HeapInv one_out-HeapInv first_is_slot (omega (arith, one_out-count))
      (omega (arith, one_out-count))

buffer_alloc_grants_example :
    (h' : Heap) × (buffer_alloc 65536 fresh 100 ≡ some (header_size, h'))
    × HeapInv h' (second ∷ beyond)
    × ((fresh.block header_size).ref_count ≡ 0)
    × ((h'.block header_size).ref_count ≡ 1)
    × ((k : ℕ) → header_size ≢ k → h'.block k ≡ fresh.block k)
buffer_alloc_grants_example = buffer_alloc_grants 65536 fresh-HeapInv 100 (omega arith)

buffer_release_last_example :
    HeapInv (buffer_release one_out header_size) (header_size ∷ second ∷ beyond)
    × (((buffer_release one_out header_size).block header_size).ref_count ≡ 0)
    × ((k : ℕ) → header_size ≢ k → (buffer_release one_out header_size).block k ≡ one_out.block k)
buffer_release_last_example = buffer_release_last one_out-HeapInv first_is_slot one_out-count

aba_example :
    (h1 h2 h3 : Heap) × (pop_load fresh ≡ some (header_size, second))
    × (buffer_alloc 65536 fresh 100 ≡ some (header_size, h1))
    × (buffer_alloc 65536 h1 100 ≡ some (second, h2))
    × (cas_head (buffer_release h2 header_size) header_size second ≡ some h3)
    × ((h3.block second).ref_count ≡ 1)
    × (pop_load h3 ≡ some (second, (h3.block second).next_free))
aba_example =
    aba_reissues_block 65536 100 fresh header_size second beyond fresh-HeapInv (omega arith)
