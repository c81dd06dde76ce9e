-- ===== src/Shm/Blocks.antt =====
-- The free list of the shared blocks.
use gemini_nos.Base.{
  ℕ, zero, suc, ◌+◌, ◌-◌, ◌*◌, ◌/◌, ◌%◌, ◌≤◌, ◌<◌, ◌≡◌, ◌≢◌, refl, ap, subst, arith, Bool, true,
  ltb, leb, ◌==◌, ◌&&◌, if◌then◌else◌, update, update_ne, count, dec_lt, List, [], ◌∷◌,
}
use gemini_nos.Shm.{Block, Heap, header_size, block_size, num_blocks}

-- The offsets at which `init_shm_pool` lays blocks.
abbrev pub is_slot : ℕ → Bool
is_slot o =
    leb header_size o
    && ((o - header_size) % block_size == 0)
    && ltb ((o - header_size) / block_size) num_blocks

-- How many of the first `n` blocks somebody refers to.
unfoldable pub outstanding : (ℕ → Block) → ℕ → ℕ
outstanding block zero = 0
outstanding block (suc n) =
    (if (block (header_size + n * block_size)).ref_count == 0 then 0 else 1) + outstanding block n

pub outstanding-le : (block : ℕ → Block) (n : ℕ) → outstanding block n ≤ n
unfolding outstanding
outstanding-le block zero = omega arith
outstanding-le block (suc n) = ground (arith, outstanding-le block n)

outstanding-update_above :
    (block : ℕ → Block) (n o : ℕ) (b : Block)
    → header_size + n * block_size ≤ o
    → outstanding (update block o b) n ≡ outstanding block n
unfolding outstanding
outstanding-update_above block zero o b h = refl
outstanding-update_above block (suc n) o b h =
    ground (arith, outstanding-update_above block n o b (omega arith))

-- Writing one block changes their number by that block alone.
pub outstanding-update :
    (block : ℕ → Block) (n k : ℕ) (b : Block)
    → k < n
    → outstanding (update block (header_size + k * block_size) b) n
        + (if (block (header_size + k * block_size)).ref_count == 0 then 0 else 1)
      ≡ outstanding block n + (if b.ref_count == 0 then 0 else 1)
unfolding outstanding
outstanding-update block zero k b h = absurd (omega arith)
outstanding-update block (suc n) k b h = elim (dec_lt k n) [
  | yes p ↦ ground (arith, outstanding-update block n k b p)
  | no p ↦
      let e : k ≡ n = omega arith in
      ground (
        arith,
        outstanding-update_above block n (header_size + k * block_size) b (omega arith),
        ap (λ j. block (header_size + j * block_size)) e,
      )
]

-- The same at a slot, named by its offset.
pub outstanding-update_slot :
    (block : ℕ → Block) (o : ℕ) (b : Block)
    → is_slot o ≡ true
    → outstanding (update block o b) num_blocks + (if (block o).ref_count == 0 then 0 else 1)
      ≡ outstanding block num_blocks + (if b.ref_count == 0 then 0 else 1)
outstanding-update_slot block o b s =
    let k = (o - header_size) / block_size in
    let e : header_size + k * block_size ≡ o = ground arith in
    subst
      (λ j.
        outstanding (update block j b) num_blocks + (if (block j).ref_count == 0 then 0 else 1)
        ≡ outstanding block num_blocks + (if b.ref_count == 0 then 0 else 1))
      e (outstanding-update block num_blocks k b (ground arith))

-- The chain of `next_free` from `head` runs through the offsets of the list, and ends in 0.
abbrev pub FreeList : (ℕ → Block) → ℕ → List ℕ → Type 0
FreeList block head [] = head ≡ 0
FreeList block head (o ∷ os) = (head ≡ o) × (o ≢ 0) × FreeList block (block o).next_free os

-- The blocks, with the free list `os`: it holds each block that nobody refers to once, and nothing
-- else, and what is not on it is counted as allocated.
pub record HeapInv (h : Heap) (os : List ℕ) : Type 0 where
  pub chain : FreeList h.block h.free_list_head os
  pub free : (o : ℕ) → count o os ≡ (if is_slot o && ((h.block o).ref_count == 0) then 1 else 0)
  pub self : (o : ℕ) → is_slot o ≡ true → (h.block o).offset ≡ o
  pub shared : (o : ℕ) → is_slot o ≡ true → 0 < (h.block o).ref_count → (h.block o).buf.flags ≡ 1
  pub total : h.total_allocated ≡ outstanding h.block num_blocks

-- A write to a block that is not on the list leaves the list alone.
pub FreeList-update :
    (block : ℕ → Block) (head k : ℕ) (b : Block) (os : List ℕ)
    → count k os ≡ 0
    → FreeList block head os
    → FreeList (update block k b) head os
FreeList-update block head k b [] c f = f
FreeList-update block head k b (o ∷ os) c f =
    let ne : k ≢ o = ground (arith, c) in
    (
      f.0,
      f.1,
      rw (update_ne block b ne)
          (FreeList-update block (block o).next_free k b os (ground (arith, c)) f.2),
    )

pub slot-ne-zero : (o : ℕ) → is_slot o ≡ true → o ≢ 0
slot-ne-zero o h = ground arith
