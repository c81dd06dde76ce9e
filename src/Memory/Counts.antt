-- ===== src/Memory/Counts.antt =====
-- What `nos_buffer_retain` and `nos_buffer_release` do to a bin, against its invariant.
use gemini_nos.Base.{
  ℕ, ◌+◌, ◌<◌, ◌≡◌, ap, arith, ltb, ◌==◌, ◌&&◌, if◌then◌else◌, update, update_ind, count, sub32,
}
use gemini_nos.FreeStack.{entries, entries-push}
use gemini_nos.Pool.{Bin, reset}
use gemini_nos.Pool.Invariant.{IsChunk, BinInv, live, live-update}

-- The bin with another reference count on buffer `j`.
abbrev pub recount : Bin → ℕ → ℕ → Bin
recount bin j n = record bin {
  buffers = update bin.buffers j (record (bin.buffers j) { ref_cnt = n });
}

-- The bin with buffer `j` back on the free stack.
abbrev pub returned : Bin → ℕ → Bin
returned bin j = record bin {
  free_stack = update bin.free_stack bin.free_top j;
  free_top = bin.free_top + 1;
  used_count = sub32 bin.used_count 1;
  buffers = update bin.buffers j (record (reset (bin.buffers j)) { ref_cnt = 0 });
}

module _ {i j : ℕ} {bin : Bin} (v : BinInv i bin) (inside : j < bin.chunk_count) where
  pub recount-BinInv : (n : ℕ) → 0 < (bin.buffers j).ref_cnt → 0 < n → BinInv i (recount bin j n)
  recount-BinInv n held more = record {
    free = λ k.
        update_ind bin.buffers
          (λ k b.
            count k (entries bin.free_stack bin.free_top)
            ≡ (if ltb k bin.chunk_count && (b.ref_cnt == 0) then 1 else 0))
          j k _ (ground (arith, v.free j)) (λ ne. v.free k);
    total = v.total;
    used = ground (
      arith,
      v.used,
      live-update bin.buffers bin.chunk_count j (record (bin.buffers j) { ref_cnt = n }) inside,
    );
    peak = v.peak;
    chunks = λ k h.
        update_ind bin.buffers (IsChunk i bin.raw_mem bin.chunk_size) j k _
          (let c = v.chunks j inside in
            record {
              place = c.place;
              whole = c.whole;
              home = c.home;
              index = c.index;
              pooled = c.pooled;
              layout = record {
                parts = c.layout.parts;
                pointer = c.layout.pointer;
                small = c.layout.small;
              };
            })
          (λ ne. v.chunks k h);
    size_fits = v.size_fits;
    count_fits = v.count_fits;
  }

  pub returned-BinInv : 0 < (bin.buffers j).ref_cnt → BinInv i (returned bin j)
  returned-BinInv held = record {
    free = λ k.
        update_ind bin.buffers
          (λ k b.
            count k (entries (update bin.free_stack bin.free_top j) (bin.free_top + 1))
            ≡ (if ltb k bin.chunk_count && (b.ref_cnt == 0) then 1 else 0))
          j k _
          (ground (arith, ap (count j) (entries-push bin.free_stack bin.free_top j), v.free j))
          (λ ne.
            ground (arith, ap (count k) (entries-push bin.free_stack bin.free_top j), v.free k));
    total = ground (arith, v.total, v.used, v.count_fits, fewer);
    used = ground (arith, v.total, v.used, v.count_fits, fewer);
    peak = ground (arith, v.total, v.used, v.peak, v.count_fits, fewer);
    chunks = λ k h.
        update_ind bin.buffers (IsChunk i bin.raw_mem bin.chunk_size) j k _
          (let c = v.chunks j inside in
            record {
              place = c.place;
              whole = c.whole;
              home = c.home;
              index = c.index;
              pooled = c.pooled;
              layout = omega (arith, c.layout.small);
            })
          (λ ne. v.chunks k h);
    size_fits = v.size_fits;
    count_fits = v.count_fits;
  }
    where
      fewer :
          live
              (update bin.buffers j (record (reset (bin.buffers j)) { ref_cnt = 0 }))
              bin.chunk_count
            + 1
          ≡ live bin.buffers bin.chunk_count
      fewer = ground (
        arith,
        live-update bin.buffers bin.chunk_count j (record (reset (bin.buffers j)) { ref_cnt = 0 })
            inside,
      )
