-- ===== src/Pool/Invariant.antt =====
-- What holds of every bin between calls.
use gemini_nos.Base.{
  ℕ, zero, suc, ◌+◌, ◌*◌, ◌≤◌, ◌<◌, dec_lt, ◌≡◌, refl, ap, arith, ltb, ◌==◌, ◌&&◌, if◌then◌else◌,
  update, count, u32_mod,
}
use gemini_nos.FreeStack.{entries}
use gemini_nos.Buffer.{Buffer}
use gemini_nos.Buffer.Room.{IsLaidOut}
use gemini_nos.Pool.{Bin, Pool, max_bins}

-- How many of the first `n` buffers are out.
abbrev pub live : (ℕ → Buffer) → ℕ → ℕ
live buffers zero = 0
live buffers (suc n) = (if (buffers n).ref_cnt == 0 then 0 else 1) + live buffers n

-- Buffer `j` of bin `i`, whose chunks of `size` bytes lie from `raw` on: it is laid out in its own
-- chunk, and knows its place.
pub record IsChunk (i raw size j : ℕ) (b : Buffer) : Type 0 where
  pub place : b.raw_data ≡ raw + j * size
  pub whole : b.capacity ≡ size
  pub home : b.bin_idx ≡ i
  pub index : b.pool_idx ≡ j
  pub pooled : b.flags ≡ 0
  pub layout : IsLaidOut b

pub record BinInv (i : ℕ) (bin : Bin) : Type 0 where
  -- The free stack holds each index of a buffer that is not out once, and no other.
  pub free :
      (j : ℕ)
      → count j (entries bin.free_stack bin.free_top)
        ≡ (if ltb j bin.chunk_count && ((bin.buffers j).ref_cnt == 0) then 1 else 0)
  pub total : bin.free_top + bin.used_count ≡ bin.chunk_count
  pub used : bin.used_count ≡ live bin.buffers bin.chunk_count
  pub peak : bin.used_count ≤ bin.peak_count
  pub chunks :
      (j : ℕ) → j < bin.chunk_count → IsChunk i bin.raw_mem bin.chunk_size j (bin.buffers j)
  pub size_fits : bin.chunk_size < u32_mod
  pub count_fits : bin.chunk_count < u32_mod

pub record PoolInv (p : Pool) : Type 0 where
  pub bins : (i : ℕ) → i < p.bin_count → BinInv i (p.bins i)
  pub few : p.bin_count ≤ max_bins

live-update_above :
    (buffers : ℕ → Buffer) (n k : ℕ) (b : Buffer)
    → n ≤ k
    → live (update buffers k b) n ≡ live buffers n
live-update_above buffers zero k b h = refl
live-update_above buffers (suc n) k b h =
    ground (arith, live-update_above buffers n k b (omega arith))

-- Writing one buffer changes the number of those out by that buffer alone.
pub live-update :
    (buffers : ℕ → Buffer) (n k : ℕ) (b : Buffer)
    → k < n
    → live (update buffers k b) n + (if (buffers k).ref_cnt == 0 then 0 else 1)
      ≡ live buffers n + (if b.ref_cnt == 0 then 0 else 1)
live-update buffers zero k b h = absurd (omega arith)
live-update buffers (suc n) k b h = elim (dec_lt k n) [
  | yes p ↦ ground (arith, live-update buffers n k b p)
  | no p ↦
      let e : k ≡ n = omega arith in
      ground (arith, live-update_above buffers n k b (omega arith), ap buffers e)
]
