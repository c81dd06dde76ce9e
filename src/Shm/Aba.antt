-- ===== src/Shm/Aba.antt =====
-- Interleavings of the lock-free pop of `nos_shm_buffer_alloc`. Its compare-and-swap sees the offset
-- of the head alone, so it cannot tell a head that was taken off and put back in between.
use gemini_nos.Base.{
  ℕ, ◌≡◌, ◌≢◌, refl, ap, arith, some, List, ◌∷◌, ◌≤◌, update_self, update_ne, ==_iff, ◌==◌, false,
  sym,
}
use gemini_nos.Shm.{Heap, buffer_alloc, buffer_release, pop_load, cas_head, claim}
use gemini_nos.Shm.Blocks.{HeapInv}
use gemini_nos.Shm.Alloc.{popped, popped-HeapInv, alloc-eq-popped, head_free}
use gemini_nos.Shm.Release.{freed, release-eq-freed}

-- On blocks with the invariant, with two blocks `a` and `b` at the front of the free list: a
-- process loads the head `a` and its successor `b`, and stops. Another allocates `a`, allocates
-- `b`, and releases `a`. The swap of the first then succeeds, and leaves `b`, which has a
-- reference, at the head of the free list, where the next pop finds it.
pub aba_reissues_block :
    (base size : ℕ) (h : Heap) (a b : ℕ) (os : List ℕ)
    → HeapInv h (a ∷ b ∷ os)
    → size ≤ 4096
    → (h1 h2 h3 : Heap) × (pop_load h ≡ some (a, b))
      × (buffer_alloc base h size ≡ some (a, h1))
      × (buffer_alloc base h1 size ≡ some (b, h2))
      × (cas_head (buffer_release h2 a) a b ≡ some h3)
      × ((h3.block b).ref_count ≡ 1)
      × (pop_load h3 ≡ some (b, (h3.block b).next_free))
unfolding pop_load cas_head claim
aba_reissues_block base size h a b os v fits = (
  h1,
  h2,
  h3,
  ground (arith, v.chain),
  alloc-eq-popped base v size fits,
  alloc-eq-popped base v1 size fits,
  rw (release-eq-freed v2 (head_free base v).0 a_held, (==_iff a a).1 refl),
  b_held,
  rw (b_head),
)
  where
    h1 : Heap
    h1 = popped base h a

    v1 : HeapInv h1 (b ∷ os)
    v1 = popped-HeapInv base v

    h2 : Heap
    h2 = popped base h1 b

    v2 : HeapInv h2 os
    v2 = popped-HeapInv base v1

    h3 : Heap
    h3 = record (freed h2 a) { free_list_head = b }

    b-ne-a : b ≢ a
    b-ne-a = ground (arith, v.free a)

    a_held : (h2.block a).ref_count ≡ 1
    a_held = rw (update_ne h1.block _ b-ne-a) (ap (λ k. k.ref_count) (update_self h.block a _))

    b_held : (h3.block b).ref_count ≡ 1
    b_held =
        rw (update_ne h2.block _ (λ e. b-ne-a (sym e)))
          (ap (λ k. k.ref_count) (update_self h1.block b _))

    b_head : (b == 0) ≡ false
    b_head = ground (arith, v.chain)
