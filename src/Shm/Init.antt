-- ===== src/Shm/Init.antt =====
-- `init_shm_pool` establishes the invariant of the blocks.
use gemini_nos.Base.{
  ℕ, zero, suc, ◌+◌, ◌-◌, ◌*◌, ◌/◌, ◌%◌, ◌<◌, ◌≡◌, refl, sym, ap, ◌∙◌, subst, arith, Bool, true,
  ltb, leb, ◌==◌, ◌&&◌, if◌then◌else◌, update_ne, update_self, count, dec_lt, Bool-cases, inl, inr,
  List, [], ◌∷◌,
}
use gemini_nos.Shm.{Block, header_size, block_size, num_blocks, init_blocks, init_shm_pool}
use gemini_nos.Shm.Blocks.{is_slot, FreeList, HeapInv, outstanding}

-- The offsets of `n` blocks from `offset` on.
unfoldable pub slots : ℕ → ℕ → List ℕ
slots zero offset = []
slots (suc n) offset = offset ∷ slots n (offset + block_size)

-- Whether `o` is one of those offsets.
abbrev among : ℕ → ℕ → ℕ → Bool
among n offset o =
    leb offset o && ((o - offset) % block_size == 0) && ltb ((o - offset) / block_size) n

count-slots : (n offset o : ℕ) → count o (slots n offset) ≡ (if among n offset o then 1 else 0)
unfolding slots
count-slots zero offset o = ground arith
count-slots (suc n) offset o = ground (arith, count-slots n (offset + block_size) o)

-- The loop writes nothing below the offset where it stands.
init_blocks_below :
    (n offset : ℕ) (block : ℕ → Block) (o : ℕ) → o < offset → init_blocks n offset block o ≡ block o
unfolding init_blocks
init_blocks_below zero offset block o h = refl
init_blocks_below (suc n) offset block o h =
    init_blocks_below n (offset + block_size) _ o (omega arith) ∙ update_ne block _ (omega arith)

-- What it wrote at an offset stays.
init_blocks_here :
    (n offset : ℕ) (block : ℕ → Block)
    → init_blocks (suc n) offset block offset ≡ record (block offset) {
      offset = offset;
      size = 4096;
      ref_count = 0;
      next_free = if n == 0 then 0 else offset + block_size;
    }
unfolding init_blocks
init_blocks_here n offset block =
    init_blocks_below n (offset + block_size) _ offset (omega arith) ∙ update_self block offset _

init_blocks_block :
    (n offset : ℕ) (block : ℕ → Block) (o : ℕ)
    → among n offset o ≡ true
    → ((init_blocks n offset block o).ref_count ≡ 0) × ((init_blocks n offset block o).offset ≡ o)
unfolding init_blocks
init_blocks_block zero offset block o h = absurd (ground arith)
init_blocks_block (suc n) offset block o h = elim (dec_lt offset o) [
  | yes later ↦ init_blocks_block n (offset + block_size) _ o (ground arith)
  | no here ↦
      let e : offset ≡ o = ground arith in
      subst
        (λ k.
          ((init_blocks (suc n) offset block k).ref_count ≡ 0)
          × ((init_blocks (suc n) offset block k).offset ≡ k))
        e
        (
          ap (λ b. b.ref_count) (init_blocks_here n offset block),
          ap (λ b. b.offset) (init_blocks_here n offset block),
        )
]

init_blocks-FreeList :
    (n offset : ℕ) (block : ℕ → Block)
    → 0 < offset
    → FreeList (init_blocks n offset block) (if n == 0 then 0 else offset) (slots n offset)
unfolding init_blocks slots
init_blocks-FreeList zero offset block h = refl
init_blocks-FreeList (suc n) offset block h = (
  ground arith,
  omega arith,
  subst (λ head. FreeList (init_blocks (suc n) offset block) head (slots n (offset + block_size)))
      (sym (ap (λ b. b.next_free) (init_blocks_here n offset block)))
      (init_blocks-FreeList n (offset + block_size) _ (omega arith)),
)

outstanding_idle :
    (block : ℕ → Block) (n : ℕ)
    → ((k : ℕ) → k < n → (block (header_size + k * block_size)).ref_count ≡ 0)
    → outstanding block n ≡ 0
unfolding outstanding
outstanding_idle block zero h = refl
outstanding_idle block (suc n) h =
    ground (arith, h n, outstanding_idle block n (λ k p. h k (omega arith)))

-- Whatever the segment held, `init_shm_pool` leaves blocks with the invariant and all of them free,
-- on a list in the order of their offsets.
pub init_shm_pool-HeapInv :
    (block : ℕ → Block) → HeapInv (init_shm_pool block) (slots num_blocks header_size)
unfolding init_shm_pool
init_shm_pool-HeapInv block = record {
  chain = init_blocks-FreeList num_blocks header_size block (omega arith);
  free = λ o. free o;
  self = λ o s. (init_blocks_block num_blocks header_size block o s).1;
  shared =
      λ o s held. absurd (omega (arith, (init_blocks_block num_blocks header_size block o s).0));
  total = sym (
      outstanding_idle _ num_blocks
        (λ k h. (init_blocks_block num_blocks header_size block _ (ground arith)).0));
}
  where
    free :
        (o : ℕ)
        → count o (slots num_blocks header_size) ≡ (
            if is_slot o && ((init_blocks num_blocks header_size block o).ref_count == 0)
            then 1
            else 0)
    free o = elim (Bool-cases (is_slot o)) [
      | inl s ↦
          rw (count-slots num_blocks header_size o)
            (ground (arith, s, init_blocks_block num_blocks header_size block o s))
      | inr s ↦ rw (count-slots num_blocks header_size o) (ground (arith, s))
    ]
