-- ===== src/Pool/Init.antt =====
-- `nos_buffer_init_pool` establishes the invariant.
use gemini_nos.Base.{
  ℕ, zero, suc, ◌+◌, ◌*◌, ◌≤◌, ◌<◌, ◌≡◌, refl, ap, arith, ltb, if◌then◌else◌, update_ind, count,
  u32_mod, some, Bool-cases, inl, inr, subst, nos_ok,
}
use gemini_nos.FreeStack.{entries, entries-push}
use gemini_nos.Buffer.{Buffer}
use gemini_nos.Pool.{
  Bin, Pool, PoolDef, empty_bin, init_chunk, init_chunks, init_bin, init_bins, init_pool,
  align_to_cache_line, max_bins,
}
use gemini_nos.Pool.Invariant.{IsChunk, BinInv, PoolInv, live}

-- A bin when the inner loop has done the chunks below `j`.
record Built (i n j : ℕ) (bin : Bin) : Type 0 where
  top : bin.free_top ≡ j
  bound : bin.chunk_count ≡ n
  free : (k : ℕ) → count k (entries bin.free_stack bin.free_top) ≡ (if ltb k j then 1 else 0)
  idle : (k : ℕ) → (bin.buffers k).ref_cnt ≡ 0
  plain : (k : ℕ) → (bin.buffers k).flags ≡ 0
  chunks : (k : ℕ) → k < j → IsChunk i bin.raw_mem bin.chunk_size k (bin.buffers k)
  none_used : bin.used_count ≡ 0
  size_fits : bin.chunk_size < u32_mod
  area : n * bin.chunk_size < u32_mod

init_chunk-Built :
    (i n j : ℕ) (bin : Bin) → j < n → Built i n j bin → Built i n (suc j) (init_chunk i j bin)
unfolding init_chunk
init_chunk-Built i n j bin h v = record {
  top = omega (arith, v.top);
  bound = v.bound;
  free = λ k.
      ground (arith, v.top, v.free k, ap (count k) (entries-push bin.free_stack bin.free_top j));
  idle = λ k. update_ind bin.buffers (λ _ b. b.ref_cnt ≡ 0) j k _ refl (λ _. v.idle k);
  plain = λ k. update_ind bin.buffers (λ _ b. b.flags ≡ 0) j k _ (v.plain j) (λ _. v.plain k);
  chunks = λ k p.
      update_ind bin.buffers (IsChunk i bin.raw_mem bin.chunk_size) j k _
        (let inside : j * bin.chunk_size < u32_mod = grind (arith, v.area) in
          record {
            place = omega arith;
            whole = refl;
            home = refl;
            index = refl;
            pooled = v.plain j;
            layout = omega (arith, v.size_fits);
          })
        (λ ne. v.chunks k (omega arith));
  none_used = v.none_used;
  size_fits = v.size_fits;
  area = v.area;
}

init_chunks-Built :
    (i n j m : ℕ) (bin : Bin) → j + m ≡ n → Built i n j bin → Built i n n (init_chunks i j m bin)
unfolding init_chunks
init_chunks-Built i n j zero bin e v = subst (λ k. Built i n k bin) (omega arith) v
init_chunks-Built i n j (suc m) bin e v =
    init_chunks-Built i n (suc j) m (init_chunk i j bin) (omega arith)
      (init_chunk-Built i n j bin (omega arith) v)

-- All buffers of a bin that are not out.
live_idle :
    (buffers : ℕ → Buffer) (n : ℕ) → ((k : ℕ) → (buffers k).ref_cnt ≡ 0) → live buffers n ≡ 0
live_idle buffers zero h = refl
live_idle buffers (suc n) h = ground (arith, h n, live_idle buffers n h)

-- A bin whose chunks fit a 32-bit area comes out of the inner loop with every chunk free.
init_bin-BinInv :
    (i raw : ℕ) (def : PoolDef)
    → def.chunk_count < u32_mod
    → align_to_cache_line def.chunk_size < u32_mod
    → def.chunk_count * align_to_cache_line def.chunk_size < u32_mod
    → BinInv i (init_bin i raw def)
unfolding init_bin
init_bin-BinInv i raw def hc hs ha = record {
  free = λ j. ground (arith, done.free j, done.idle j, done.bound);
  total = omega (arith, done.top, done.bound, done.none_used);
  used = omega (arith, done.none_used, live_idle bin.buffers bin.chunk_count done.idle);
  peak = omega (arith, done.none_used);
  chunks = λ j p. done.chunks j (omega (arith, done.bound));
  size_fits = done.size_fits;
  count_fits = omega (arith, done.bound);
}
  where
    start : Built i def.chunk_count 0 (empty_bin raw def)
    start = record {
      top = refl;
      bound = refl;
      free = λ k. ground arith;
      idle = λ k. refl;
      plain = λ k. refl;
      chunks = λ k p. absurd (omega arith);
      none_used = refl;
      size_fits = hs;
      area = ha;
    }

    bin : Bin
    bin = init_chunks i 0 def.chunk_count (empty_bin raw def)

    done : Built i def.chunk_count def.chunk_count bin
    done = init_chunks-Built i def.chunk_count 0 def.chunk_count _ (omega arith) start

-- What the pool needs of its configuration: the bins that are set up fit 32-bit areas.
abbrev pub IsSized : PoolDef → Type 0
IsSized def =
    (def.chunk_count < u32_mod)
    × (align_to_cache_line def.chunk_size < u32_mod)
    × (def.chunk_count * align_to_cache_line def.chunk_size < u32_mod)

init_bins-PoolInv :
    (raw : ℕ → ℕ) (config : ℕ → PoolDef) (i n : ℕ) (p : Pool)
    → ((k : ℕ) → IsSized (config k))
    → p.bin_count ≡ i
    → i + n ≤ max_bins
    → PoolInv p
    → PoolInv (init_bins raw config i n p)
unfolding init_bins
init_bins-PoolInv raw config i zero p hc e h v = v
init_bins-PoolInv raw config i (suc n) p hc e h v =
    elim (Bool-cases (ltb 0 (config i).chunk_size)) [
      | inl more ↦ rw more (
          init_bins-PoolInv raw config (suc i) n _ hc (omega arith) (omega arith) (record {
            bins = λ k q.
                update_ind p.bins BinInv i k _
                  (init_bin-BinInv i (raw i) (config i) (hc i).0 (hc i).1 (hc i).2)
                  (λ ne. v.bins k (omega arith));
            few = omega arith;
          }))
      | inr end ↦ rw end v
    ]

-- With a configuration whose bins fit 32-bit areas, `nos_buffer_init_pool` reports success and
-- keeps the pool's invariant, also from a pool with no bin; a pool that has bins it leaves as it
-- is.
pub init_pool-PoolInv :
    (raw : ℕ → ℕ) (config : ℕ → PoolDef) (p : Pool)
    → ((k : ℕ) → IsSized (config k))
    → PoolInv p
    → ((init_pool raw (some config) p).0 ≡ nos_ok)
      × PoolInv (init_pool raw (some config) p).1
      × (0 < p.bin_count → (init_pool raw (some config) p).1 ≡ p)
unfolding init_pool
init_pool-PoolInv raw config p hc v = elim (Bool-cases (ltb 0 p.bin_count)) [
  | inl old ↦ rw old (refl, v, λ _. refl)
  | inr fresh ↦ rw fresh (
    refl,
    init_bins-PoolInv raw config 0 max_bins p hc (ground arith) (omega arith) v,
    λ some_bin. absurd (ground arith),
  )
]
