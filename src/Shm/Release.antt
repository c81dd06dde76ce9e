-- ===== src/Shm/Release.antt =====
-- `nos_shm_buffer_retain` and `nos_shm_buffer_release` against the free list.
use gemini_nos.Base.{
  ℕ, ◌+◌, ◌<◌, ◌≡◌, ◌≢◌, refl, ap, arith, true, false, ◌==◌, ◌&&◌, if◌then◌else◌, update,
  update_ind, update_ne, update_self, update-update, count, u32_mod, List, ◌∷◌, add32, sub32,
  ==_iff,
}
use gemini_nos.Shm.{Heap, num_blocks, cas_head, push_free, buffer_release, buffer_retain}
use gemini_nos.Shm.Blocks.{
  is_slot, HeapInv, FreeList-update, slot-ne-zero, outstanding-le, outstanding-update_slot,
}

-- The heap with block `o`, which is no longer referred to, at the head of the free list.
abbrev pub freed : Heap → ℕ → Heap
freed h o = record h {
  block = update h.block o (record (h.block o) { ref_count = 0; next_free = h.free_list_head });
  free_list_head = o;
  total_allocated = sub32 h.total_allocated 1;
}

module _ {h : Heap} {o : ℕ} {os : List ℕ} (v : HeapInv h os) (slot : is_slot o ≡ true) where
  -- Only the reference count of the block changes, from one that is not 0 to another.
  recount-HeapInv :
      (n : ℕ)
      → 0 < (h.block o).ref_count
      → 0 < n
      → HeapInv (record h { block = update h.block o (record (h.block o) { ref_count = n }) }) os
  recount-HeapInv n held more = record {
    chain = FreeList-update h.block _ o _ os (ground (arith, v.free o)) v.chain;
    free = λ k.
        update_ind h.block (λ k b. count k os ≡ (if is_slot k && (b.ref_count == 0) then 1 else 0))
          o k _ (ground (arith, v.free o)) (λ ne. v.free k);
    self = λ k s. update_ind h.block (λ k b. b.offset ≡ k) o k _ (v.self o slot) (λ _. v.self k s);
    shared = λ k s.
        update_ind h.block (λ k b. 0 < b.ref_count → b.buf.flags ≡ 1) o k _
          (λ _. v.shared o slot held) (λ _. v.shared k s);
    total = ground (
      arith,
      v.total,
      outstanding-update_slot h.block o (record (h.block o) { ref_count = n }) slot,
    );
  }

  -- On blocks with the invariant, retaining a block that somebody refers to, with a count that does
  -- not wrap, adds one reference, and keeps the invariant with the same free list.
  pub buffer_retain-HeapInv :
      0 < (h.block o).ref_count
      → (h.block o).ref_count + 1 < u32_mod
      → HeapInv (buffer_retain h o) os
        × (((buffer_retain h o).block o).ref_count ≡ (h.block o).ref_count + 1)
  unfolding buffer_retain
  buffer_retain-HeapInv held fits = rw ((==_iff _ _).1 (v.shared o slot held)) (
    recount-HeapInv (add32 (h.block o).ref_count 1) held (omega arith),
    rw (update_self h.block o _) (omega arith),
  )

  -- On blocks with the invariant, releasing one of several references to a block takes it off, and
  -- keeps the invariant with the same free list.
  pub buffer_release-HeapInv :
      1 < (h.block o).ref_count
      → (h.block o).ref_count < u32_mod
      → HeapInv (buffer_release h o) os
        × (((buffer_release h o).block o).ref_count + 1 ≡ (h.block o).ref_count)
  unfolding buffer_release
  buffer_release-HeapInv held fits =
      rw ((==_iff _ _).1 (v.shared o slot (omega arith)), not_last)
        (
          recount-HeapInv (sub32 (h.block o).ref_count 1) (omega arith) (omega arith),
          rw (update_self h.block o _) (omega arith),
        )
    where
      not_last : ((h.block o).ref_count == 1) ≡ false
      not_last = ground arith

  pub freed-HeapInv : (h.block o).ref_count ≡ 1 → HeapInv (freed h o) (o ∷ os)
  freed-HeapInv held = record {
    chain = (
      refl,
      slot-ne-zero o slot,
      rw (update_self h.block o _)
          (FreeList-update h.block _ o _ os (ground (arith, v.free o)) v.chain),
    );
    free = λ k.
        update_ind h.block
          (λ k b. count k (o ∷ os) ≡ (if is_slot k && (b.ref_count == 0) then 1 else 0)) o k _
          (ground (arith, v.free o)) (λ ne. ground (arith, v.free k));
    self = λ k s. update_ind h.block (λ k b. b.offset ≡ k) o k _ (v.self o slot) (λ _. v.self k s);
    shared = λ k s.
        update_ind h.block (λ k b. 0 < b.ref_count → b.buf.flags ≡ 1) o k _
          (λ out. absurd (omega arith)) (λ _. v.shared k s);
    total = ground (
      arith,
      v.total,
      outstanding-le h.block num_blocks,
      outstanding-update_slot h.block o
          (record (h.block o) { ref_count = 0; next_free = h.free_list_head }) slot,
    );
  }

  pub release-eq-freed : (h.block o).ref_count ≡ 1 → buffer_release h o ≡ freed h o
  unfolding buffer_release push_free cas_head
  release-eq-freed held = rw (
    (==_iff _ _).1 (v.shared o slot (omega arith)),
    (==_iff _ _).1 held,
    (==_iff h.free_list_head _).1 refl,
    update_self h.block o _,
    update-update h.block o,
    v.self o slot,
    held,
  )

  -- On blocks with the invariant, releasing the last reference to a block puts it at the head of
  -- the free list, keeps the invariant, and leaves the other blocks as they are.
  pub buffer_release_last :
      (h.block o).ref_count ≡ 1
      → HeapInv (buffer_release h o) (o ∷ os)
        × (((buffer_release h o).block o).ref_count ≡ 0)
        × ((k : ℕ) → o ≢ k → (buffer_release h o).block k ≡ h.block k)
  buffer_release_last held = rw (release-eq-freed held) (
    freed-HeapInv held,
    ap (λ b. b.ref_count) (update_self h.block o _),
    λ k ne. update_ne h.block _ ne,
  )
