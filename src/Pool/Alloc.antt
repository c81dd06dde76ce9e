-- ===== src/Pool/Alloc.antt =====
-- `nos_buffer_alloc`: which bin it takes a chunk from, and what it hands out.
use gemini_nos.Base.{
  ℕ, ◌+◌, ◌-◌, ◌≤◌, ◌<◌, ◌≡◌, ◌≢◌, ◌↔◌, ◌∙◌, sym, subst, Option-cases, refl, ap, arith, ltb, ◌==◌,
  ◌&&◌, if◌then◌else◌, update, update_ind, update_ne, update_self, count, u32_mod, some, none, inl,
  inr, false, add32,
}
use mathlib.Core.Option.{some-injective}
use gemini_nos.Base.Scan.{scan, scan-Found, scan-none, scan_misses, Found}
use gemini_nos.FreeStack.{entries, entries-pop}
use gemini_nos.Buffer.{Buffer}
use gemini_nos.Pool.{Bin, Pool, take_chunk, alloc, fits, dress}
use gemini_nos.Pool.Invariant.{IsChunk, BinInv, PoolInv, live-update}

-- The index that an allocation takes off the free stack.
abbrev pub top_index : Bin → ℕ
top_index bin = bin.free_stack (bin.free_top - 1)

module _ {i : ℕ} {bin : Bin} (v : BinInv i bin) (some_free : 0 < bin.free_top) where
  -- It is the index of a buffer of the bin that is not out.
  pub top_index_free :
      (top_index bin < bin.chunk_count) × ((bin.buffers (top_index bin)).ref_cnt ≡ 0)
  top_index_free = ground (
    arith,
    v.free (top_index bin),
    ap (count (top_index bin)) (entries-pop bin.free_stack bin.free_top some_free),
  )

  -- The others stay on the stack as often as they were.
  count-rest :
      (j : ℕ)
      → count j (entries bin.free_stack bin.free_top)
        ≡ (if top_index bin == j then 1 else 0)
          + count j (entries bin.free_stack (bin.free_top - 1))
  count-rest j = ap (count j) (entries-pop bin.free_stack bin.free_top some_free)

  module _ (size headroom : ℕ) (room : headroom + size ≤ bin.chunk_size) where
    dress-IsChunk :
        (j : ℕ) (b : Buffer)
        → IsChunk i bin.raw_mem bin.chunk_size j b
        → IsChunk i bin.raw_mem bin.chunk_size j (dress b size headroom)
    dress-IsChunk j b c = record {
      place = c.place;
      whole = c.whole;
      home = c.home;
      index = c.index;
      pooled = c.pooled;
      layout = omega (arith, c.layout.small, c.whole);
    }

    pub take_chunk-BinInv : BinInv i (take_chunk bin size headroom).1
    unfolding take_chunk
    take_chunk-BinInv = record {
      free = λ j.
          update_ind bin.buffers
            (λ k b.
              count k (entries bin.free_stack (bin.free_top - 1))
              ≡ (if ltb k bin.chunk_count && (b.ref_cnt == 0) then 1 else 0))
            (top_index bin) j _ (ground (arith, count-rest (top_index bin), v.free (top_index bin)))
            (λ ne. ground (arith, count-rest j, v.free j));
      total = omega (arith, v.total, v.count_fits);
      used = ground (
        arith,
        v.used,
        v.total,
        v.count_fits,
        top_index_free,
        live-update bin.buffers bin.chunk_count (top_index bin)
            (dress (bin.buffers (top_index bin)) size headroom) (top_index_free.0),
      );
      peak = ground (arith, v.peak);
      chunks = λ j p.
          update_ind bin.buffers (IsChunk i bin.raw_mem bin.chunk_size) (top_index bin) j _
            (dress-IsChunk _ _ (v.chunks (top_index bin) top_index_free.0)) (λ ne. v.chunks j p);
      size_fits = v.size_fits;
      count_fits = v.count_fits;
    }

-- What `nos_buffer_alloc` promises of the chunk that it hands out.
pub record IsGranted (p q : Pool) (size headroom i idx : ℕ) : Type 0 where
  pub bin_in : i < p.bin_count
  pub index_in : idx < (p.bins i).chunk_count
  pub was_free : ((p.bins i).buffers idx).ref_cnt ≡ 0
  pub is_out : ((q.bins i).buffers idx).ref_cnt ≡ 1
  pub length : ((q.bins i).buffers idx).len ≡ size
  pub reserve : ((q.bins i).buffers idx).headroom ≡ headroom
  pub room : headroom + size ≤ (p.bins i).chunk_size
  pub others : (j k : ℕ) → (i ≡ j → idx ≢ k) → (q.bins j).buffers k ≡ (p.bins j).buffers k
  pub first : (j : ℕ) → j < i → fits p (add32 size headroom) j ≡ false

abbrev granted : Pool → ℕ → ℕ → ℕ → (ℕ × ℕ) × Pool
granted p size headroom i =
    let (idx, bin) = take_chunk (p.bins i) size headroom in
    ((i, idx), record p { bins = update p.bins i bin })

module _ (p : Pool) (size headroom : ℕ) (v : PoolInv p) (no_wrap : size + headroom < u32_mod) where
  granted-IsGranted :
      (i : ℕ)
      → Found (fits p (add32 size headroom)) 0 p.bin_count i
      → let q = (granted p size headroom i).1 in
        PoolInv q × IsGranted p q size headroom i (top_index (p.bins i))
  unfolding take_chunk
  granted-IsGranted i f = (
    record {
      bins = λ j h.
          update_ind p.bins BinInv i j _
            (take_chunk-BinInv (v.bins i (omega (arith, f.upper))) top size headroom room)
            (λ ne. v.bins j h);
      few = v.few;
    },
    record {
      bin_in = omega (arith, f.upper);
      index_in = free.0;
      was_free = free.1;
      is_out = ap (λ b. b.ref_cnt) written;
      length = ap (λ b. b.len) written;
      reserve = ap (λ b. b.headroom) written;
      room = room;
      others = λ j k ne.
          update_ind p.bins
            (λ j bin. (i ≡ j → top_index (p.bins i) ≢ k) → bin.buffers k ≡ (p.bins j).buffers k) i j
            _ (λ ne'. update_ne (p.bins i).buffers _ (ne' refl)) (λ _ _. refl) ne;
      first = λ j h. f.first j (omega arith) h;
    },
  )
    where
      top : 0 < (p.bins i).free_top
      top = ground (arith, f.passes)

      room : headroom + size ≤ (p.bins i).chunk_size
      room = ground (arith, f.passes)

      free :
          (top_index (p.bins i) < (p.bins i).chunk_count)
          × (((p.bins i).buffers (top_index (p.bins i))).ref_cnt ≡ 0)
      free = top_index_free (v.bins i (omega (arith, f.upper))) top

      written :
          ((granted p size headroom i).1.bins i).buffers (top_index (p.bins i))
          ≡ dress ((p.bins i).buffers (top_index (p.bins i))) size headroom
      written = rw (update_self p.bins i _, update_self (p.bins i).buffers (top_index (p.bins i)) _)

  alloc_hit :
      (i : ℕ)
      → scan (fits p (add32 size headroom)) 0 p.bin_count ≡ some i
      → alloc p size headroom ≡ some (granted p size headroom i)
  unfolding alloc
  alloc_hit i hit = rw (hit, alloc)

  alloc_miss :
      scan (fits p (add32 size headroom)) 0 p.bin_count ≡ none → alloc p size headroom ≡ none
  unfolding alloc
  alloc_miss miss = rw (miss, alloc)

  -- An allocation whose sizes do not wrap keeps the pool's invariant, and grants a chunk that
  -- nobody held, of a bin with enough room, the first such bin that has a free chunk.
  pub alloc-IsGranted :
      (r : (ℕ × ℕ) × Pool)
      → alloc p size headroom ≡ some r
      → PoolInv r.1 × IsGranted p r.1 size headroom r.0.0 r.0.1
  unfolding take_chunk
  alloc-IsGranted r e = elim (Option-cases (scan (fits p (add32 size headroom)) 0 p.bin_count)) [
    | inl miss ↦ absurd (cc (alloc_miss miss))
    | inr (i, hit) ↦
        subst (λ r. PoolInv r.1 × IsGranted p r.1 size headroom r.0.0 r.0.1)
          (some-injective _ _ (sym (alloc_hit i hit) ∙ e))
          (granted-IsGranted i (scan-Found _ 0 p.bin_count i hit))
  ]

  -- On a pool with the invariant, an allocation whose sizes do not wrap fails exactly when every
  -- bin with enough room is exhausted.
  pub alloc-none_iff : (alloc p size headroom ≡ none) ↔ (
      (i : ℕ) → i < p.bin_count → size + headroom ≤ (p.bins i).chunk_size → (p.bins i).free_top ≡ 0)
  alloc-none_iff = (forward, backward)
    where
      forward :
          alloc p size headroom ≡ none
          → (i : ℕ) → i < p.bin_count
          → size + headroom ≤ (p.bins i).chunk_size
          → (p.bins i).free_top ≡ 0
      forward e i h room = elim (Option-cases (scan (fits p (add32 size headroom)) 0 p.bin_count)) [
        | inl miss ↦ ground (arith, scan-none (fits p (add32 size headroom)) 0 p.bin_count i miss)
        | inr (j, hit) ↦ absurd (cc (alloc_hit j hit))
      ]

      backward :
          ((i : ℕ)
            → i < p.bin_count
            → size + headroom ≤ (p.bins i).chunk_size
            → (p.bins i).free_top ≡ 0)
          → alloc p size headroom ≡ none
      backward out = alloc_miss (scan_misses _ 0 p.bin_count (λ i _ h. ground (arith, out i)))
