-- ===== src/Memory/Pooled.antt =====
-- `nos_buffer_retain` and `nos_buffer_release` of chunks of the pool.
use gemini_nos.Base.{
  ℕ, ◌+◌, ◌<◌, ◌≡◌, ◌≢◌, refl, ap, ap₂, ◌∙◌, arith, false, ◌==◌, update, update_ne, update_ind,
  update_self, update-update, ==_iff, some, ◌∷◌, u32_mod, add32, sub32,
}
use gemini_nos.FreeStack.{entries, entries-push}
use gemini_nos.Buffer.{Buffer}
use gemini_nos.Pool.{Bin, give_back, reset}
use gemini_nos.Pool.Invariant.{IsChunk, BinInv, PoolInv}
use gemini_nos.Memory.{Memory, pooled, retain, release, recycle, buffer_at, write_buffer}
use gemini_nos.Memory.Counts.{recount, returned, recount-BinInv, returned-BinInv}

-- The memory with another bin at `i`.
abbrev with_bin : Memory → ℕ → Bin → Memory
with_bin m i bin = record m { pool = record (m.pool) { bins = update m.pool.bins i bin } }

with_bin-PoolInv :
    (m : Memory) (i : ℕ) (bin : Bin)
    → PoolInv m.pool
    → BinInv i bin
    → PoolInv (with_bin m i bin).pool
with_bin-PoolInv m i bin v w = record {
  bins = λ k h. update_ind m.pool.bins BinInv i k bin w (λ ne. v.bins k h);
  few = v.few;
}

-- Every buffer of the pool but `j` of bin `i` is as it was.
abbrev pub SameElsewhere : ℕ → ℕ → Memory → Memory → Type 0
SameElsewhere i j m m' =
    (k l : ℕ) → (i ≡ k → j ≢ l) → (m'.pool.bins k).buffers l ≡ (m.pool.bins k).buffers l

with_bin-SameElsewhere :
    (m : Memory) (i j : ℕ) (b : Buffer) (bin : Bin)
    → bin.buffers ≡ update (m.pool.bins i).buffers j b
    → SameElsewhere i j m (with_bin m i bin)
with_bin-SameElsewhere m i j b bin e k l =
    update_ind m.pool.bins (λ k bin. (i ≡ k → j ≢ l) → bin.buffers l ≡ (m.pool.bins k).buffers l) i
      k bin (λ ne. rw e (update_ne (m.pool.bins i).buffers b (ne refl))) (λ _ _. refl)

buffer_with_bin :
    (m : Memory) (i j : ℕ) (b : Buffer) (bin : Bin)
    → bin.buffers ≡ update (m.pool.bins i).buffers j b
    → buffer_at (with_bin m i bin) (pooled i j) ≡ b
buffer_with_bin m i j b bin e =
    ap (λ r. r.buffers j) (update_self m.pool.bins i bin)
    ∙ ap (λ a. a j) e
    ∙ update_self (m.pool.bins i).buffers j b

-- A bin with buffer `j` back on the stack, and `n` references to it.
abbrev rebin : Bin → ℕ → ℕ → Bin
rebin bin j n = record (returned bin j) {
  buffers = update bin.buffers j (record (reset (bin.buffers j)) { ref_cnt = n });
}

-- Recycling a buffer that knows its place.
recycle-eq :
    (m : Memory) (i j : ℕ)
    → (buffer_at m (pooled i j)).bin_idx ≡ i
    → (buffer_at m (pooled i j)).pool_idx ≡ j
    → recycle m (pooled i j)
      ≡ with_bin m i (rebin (m.pool.bins i) j (buffer_at m (pooled i j)).ref_cnt)
unfolding recycle give_back
recycle-eq m i j home index =
    ap₂
      (λ k l.
        write_buffer (with_bin m k (give_back (m.pool.bins k) l)) (pooled i j)
          (reset (buffer_at m (pooled i j))))
      home index
    ∙ rw (update_self m.pool.bins i _, update-update m.pool.bins i)

with_bin-with_bin :
    (m : Memory) (i : ℕ) (x y : Bin) → with_bin (with_bin m i x) i y ≡ with_bin m i y
with_bin-with_bin m i x y =
    ap (λ f. record m { pool = record (m.pool) { bins = f } }) (update-update m.pool.bins i x y)

rebin-recount :
    (bin : Bin) (j n : ℕ)
    → rebin (recount bin j n) j ((recount bin j n).buffers j).ref_cnt ≡ rebin bin j n
rebin-recount bin j n =
    ap
      (λ b. record (returned bin j) {
        buffers = update (recount bin j n).buffers j (record (reset b) { ref_cnt = b.ref_cnt });
      })
      (update_self bin.buffers j (record (bin.buffers j) { ref_cnt = n }))
    ∙ ap (λ f. record (returned bin j) { buffers = f }) (update-update bin.buffers j _ _)

module _ (m : Memory) (i j : ℕ) (v : PoolInv m.pool) (bin_in : i < m.pool.bin_count)
    (index_in : j < (m.pool.bins i).chunk_count)
    (held : 0 < (buffer_at m (pooled i j)).ref_cnt) where
  local : ((buffer_at m (pooled i j)).flags == 1) ≡ false
  local = ground (arith, ((v.bins i bin_in).chunks j index_in).pooled)

  retain-eq :
      retain m (some (pooled i j))
      ≡ with_bin m i (recount (m.pool.bins i) j (add32 (buffer_at m (pooled i j)).ref_cnt 1))
  unfolding retain
  retain-eq = rw local

  -- On a pool with the invariant, retaining a chunk that is out, with a count that does not wrap,
  -- adds one reference to it, keeps the invariant, and changes no other buffer.
  pub retain_adds :
      (buffer_at m (pooled i j)).ref_cnt + 1 < u32_mod
      → PoolInv (retain m (some (pooled i j))).pool
        × ((buffer_at (retain m (some (pooled i j))) (pooled i j)).ref_cnt
            ≡ (buffer_at m (pooled i j)).ref_cnt + 1)
        × SameElsewhere i j m (retain m (some (pooled i j)))
  retain_adds fits = rw retain-eq (
    with_bin-PoolInv m i _ v (recount-BinInv (v.bins i bin_in) index_in _ held (omega arith)),
    ap (λ b. b.ref_cnt)
          (buffer_with_bin m i j
            (record (buffer_at m (pooled i j)) {
              ref_cnt = add32 (buffer_at m (pooled i j)).ref_cnt 1;
            })
            _ refl)
        ∙ omega arith,
    with_bin-SameElsewhere m i j _ _ refl,
  )

  release-eq :
      1 < (buffer_at m (pooled i j)).ref_cnt
      → release m (some (pooled i j))
        ≡ with_bin m i (recount (m.pool.bins i) j (sub32 (buffer_at m (pooled i j)).ref_cnt 1))
  unfolding release
  release-eq more = rw (local, shared_yet)
    where
      shared_yet : ((buffer_at m (pooled i j)).ref_cnt == 1) ≡ false
      shared_yet = ground arith

  -- On a pool with the invariant, releasing one of several references to a chunk takes it off,
  -- keeps the invariant, and changes no other buffer.
  pub release_subtracts :
      1 < (buffer_at m (pooled i j)).ref_cnt
      → (buffer_at m (pooled i j)).ref_cnt < u32_mod
      → PoolInv (release m (some (pooled i j))).pool
        × ((buffer_at (release m (some (pooled i j))) (pooled i j)).ref_cnt + 1
            ≡ (buffer_at m (pooled i j)).ref_cnt)
        × SameElsewhere i j m (release m (some (pooled i j)))
  release_subtracts more fits = rw (release-eq more) (
    with_bin-PoolInv m i _ v (recount-BinInv (v.bins i bin_in) index_in _ held (omega arith)),
    omega (
      arith,
      ap (λ b. b.ref_cnt)
          (buffer_with_bin m i j
            (record (buffer_at m (pooled i j)) {
              ref_cnt = sub32 (buffer_at m (pooled i j)).ref_cnt 1;
            })
            (recount (m.pool.bins i) j (sub32 (buffer_at m (pooled i j)).ref_cnt 1)) refl),
    ),
    with_bin-SameElsewhere m i j _ _ refl,
  )

  release_last-eq :
      (buffer_at m (pooled i j)).ref_cnt ≡ 1
      → release m (some (pooled i j)) ≡ with_bin m i (returned (m.pool.bins i) j)
  unfolding release
  release_last-eq last =
      taken
      ∙ recycle-eq (with_bin m i dropped) i j (ap (λ b. b.bin_idx) here ∙ chunk.home)
          (ap (λ b. b.pool_idx) here ∙ chunk.index)
      ∙ ap (λ r. with_bin (with_bin m i dropped) i (rebin r j (r.buffers j).ref_cnt))
          (update_self m.pool.bins i dropped)
      ∙ with_bin-with_bin m i dropped _
      ∙ ap (with_bin m i) (rebin-recount (m.pool.bins i) j _)
      ∙ zero_count
    where
      counted : Buffer
      counted = record (buffer_at m (pooled i j)) {
        ref_cnt = sub32 (buffer_at m (pooled i j)).ref_cnt 1;
      }

      dropped : Bin
      dropped = recount (m.pool.bins i) j (sub32 (buffer_at m (pooled i j)).ref_cnt 1)

      chunk :
          IsChunk i (m.pool.bins i).raw_mem (m.pool.bins i).chunk_size j (buffer_at m (pooled i j))
      chunk = (v.bins i bin_in).chunks j index_in

      here : buffer_at (with_bin m i dropped) (pooled i j) ≡ counted
      here = buffer_with_bin m i j _ _ refl

      taken : release m (some (pooled i j)) ≡ recycle (with_bin m i dropped) (pooled i j)
      taken = rw (local, (==_iff _ _).1 last)

      zero_count :
          with_bin m i (rebin (m.pool.bins i) j (sub32 (buffer_at m (pooled i j)).ref_cnt 1))
          ≡ with_bin m i (returned (m.pool.bins i) j)
      zero_count = ap (λ n. with_bin m i (rebin (m.pool.bins i) j n)) (omega arith)

  -- On a pool with the invariant, releasing the last reference to a chunk puts its index on top of
  -- the free stack of its bin, empties the chunk, keeps the invariant, and changes no other buffer.
  pub release_recycles :
      (buffer_at m (pooled i j)).ref_cnt ≡ 1
      → let m' = release m (some (pooled i j)) in
        PoolInv m'.pool
        × (entries (m'.pool.bins i).free_stack (m'.pool.bins i).free_top
            ≡ j ∷ entries (m.pool.bins i).free_stack (m.pool.bins i).free_top)
        × ((buffer_at m' (pooled i j)).ref_cnt ≡ 0)
        × ((buffer_at m' (pooled i j)).len ≡ 0)
        × ((buffer_at m' (pooled i j)).headroom ≡ 0)
        × SameElsewhere i j m m'
  release_recycles last = rw (release_last-eq last) (
    with_bin-PoolInv m i _ v (returned-BinInv (v.bins i bin_in) index_in held),
    rw (update_self m.pool.bins i _) (entries-push (m.pool.bins i).free_stack _ j),
    ap (λ b. b.ref_cnt)
        (buffer_with_bin m i j (record (reset (buffer_at m (pooled i j))) { ref_cnt = 0 })
          (returned (m.pool.bins i) j) refl),
    ap (λ b. b.len)
        (buffer_with_bin m i j (record (reset (buffer_at m (pooled i j))) { ref_cnt = 0 })
          (returned (m.pool.bins i) j) refl),
    ap (λ b. b.headroom)
        (buffer_with_bin m i j (record (reset (buffer_at m (pooled i j))) { ref_cnt = 0 })
          (returned (m.pool.bins i) j) refl),
    with_bin-SameElsewhere m i j _ _ refl,
  )
