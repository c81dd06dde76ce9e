-- ===== src/Shm/Alloc.antt =====
-- `nos_shm_buffer_alloc` against the free list.
use gemini_nos.Base.{
  ℕ, ◌≤◌, ◌<◌, ◌≡◌, ◌≢◌, ◌⊎◌, ◌↔◌, refl, ap, ◌∙◌, arith, true, ◌==◌, ◌&&◌, if◌then◌else◌,
  update_ind, update_ne, update_self, count, some, none, dec_lt, inl, inr, List, [], ◌∷◌,
}
use gemini_nos.Shm.{Heap, num_blocks, fresh_buffer, pop_load, cas_head, claim, buffer_alloc}
use gemini_nos.Shm.Blocks.{
  is_slot, HeapInv, FreeList-update, outstanding-le, outstanding-update_slot,
}

-- The heap after an uninterrupted pop of block `o`.
abbrev pub popped : ℕ → Heap → ℕ → Heap
popped base h o = claim base (record h { free_list_head = (h.block o).next_free }) o

module _ (base : ℕ) {h : Heap} {o : ℕ} {os : List ℕ} (v : HeapInv h (o ∷ os)) where
  pub head_free : (is_slot o ≡ true) × ((h.block o).ref_count ≡ 0)
  head_free = ground (arith, v.free o)

  pub popped-HeapInv : HeapInv (popped base h o) os
  unfolding claim
  popped-HeapInv = record {
    chain = FreeList-update h.block _ o _ os (ground (arith, v.free o)) v.chain.2;
    free = λ k.
        update_ind h.block (λ k b. count k os ≡ (if is_slot k && (b.ref_count == 0) then 1 else 0))
          o k _ (ground (arith, v.free o)) (λ ne. ground (arith, v.free k));
    self = λ k s.
        update_ind h.block (λ k b. b.offset ≡ k) o k _ (v.self o head_free.0) (λ _. v.self k s);
    shared = λ k s.
        update_ind h.block (λ k b. 0 < b.ref_count → b.buf.flags ≡ 1) o k _ (λ _. refl)
          (λ _. v.shared k s);
    total = ground (
      arith,
      v.total,
      head_free,
      outstanding-le h.block num_blocks,
      outstanding-update_slot h.block o
          (record (h.block o) { ref_count = 1; buf = fresh_buffer base o (h.block o).buf })
          head_free.0,
    );
  }

  pub alloc-eq-popped :
      (size : ℕ) → size ≤ 4096 → buffer_alloc base h size ≡ some (o, popped base h o)
  unfolding buffer_alloc pop_load cas_head
  alloc-eq-popped size fits = at_head ∙ ap (λ k. some (k, popped base h k)) v.chain.0
    where
      at_head : buffer_alloc base h size ≡ some (h.free_list_head, popped base h h.free_list_head)
      at_head = ground (arith, v.chain.0, v.chain.1)

  -- From blocks with the invariant, whose free list is not empty, an allocation of at most 4096
  -- bytes takes the first block of the list, which nobody referred to, gives it one reference, and
  -- leaves the other blocks as they are and the invariant with the rest of the list.
  pub buffer_alloc_grants :
      (size : ℕ)
      → size ≤ 4096
      → (h' : Heap) × (buffer_alloc base h size ≡ some (o, h'))
        × HeapInv h' os
        × ((h.block o).ref_count ≡ 0)
        × ((h'.block o).ref_count ≡ 1)
        × ((k : ℕ) → o ≢ k → h'.block k ≡ h.block k)
  unfolding claim
  buffer_alloc_grants size fits = (
    popped base h o,
    alloc-eq-popped size fits,
    popped-HeapInv,
    head_free.1,
    ap (λ b. b.ref_count) (update_self h.block o _),
    λ k ne. update_ne h.block _ ne,
  )

-- On blocks with the invariant an allocation fails exactly when it asks for more than 4096 bytes or
-- no block is free.
pub buffer_alloc-none_iff :
    (base size : ℕ) {h : Heap} {os : List ℕ}
    → HeapInv h os
    → (buffer_alloc base h size ≡ none) ↔ ((4096 < size) ⊎ (os ≡ []))
unfolding buffer_alloc pop_load cas_head
buffer_alloc-none_iff base size {h} {os = []} v = (λ _. inr refl, λ _. ground (arith, v.chain))
buffer_alloc-none_iff base size {h} {os = o ∷ os} v = (
  λ e. elim (dec_lt 4096 size) [
    | yes p ↦ inl p
    | no p ↦ absurd (cc (alloc-eq-popped base v size (omega arith)))
  ],
  λ big. ground arith,
)
