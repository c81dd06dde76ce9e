-- ===== src/Kv/Hash.antt =====
-- `murmurhash3_32` of src/infra/db/nos_kv.c, over the bytes of a key on a little-endian target.
use Prim.Native.Nat.{bit_xor, bit_or}
use gemini_nos.Base.{ℕ, ◌+◌, ◌*◌, ◌/◌, ◌%◌, ◌^◌, List, [], ◌∷◌, length, mul32, add32, u32_mod}

-- `x << k` and `x >> k` on `uint32_t`
abbrev shl : ℕ → ℕ → ℕ
shl x k = x * 2 ^ k % u32_mod

abbrev shr : ℕ → ℕ → ℕ
shr x k = x / 2 ^ k

-- `k1 *= c1; k1 = (k1 << 15) | (k1 >> 17); k1 *= c2`
scramble : ℕ → ℕ
scramble k = let k1 = mul32 k 0xcc9e2d51 in mul32 (bit_or (shl k1 15) (shr k1 17)) 0x1b873593

-- A round of the block loop.
mix_block : ℕ → ℕ → ℕ
unfolding scramble
mix_block h1 k1 =
    let h = bit_xor h1 (scramble k1) in add32 (mul32 (bit_or (shl h 13) (shr h 19)) 5) 0xe6546b64

-- The block loop, and then the `switch` on the one to three bytes that are left.
body : ℕ → List ℕ → ℕ
unfolding mix_block scramble
body h1 (a ∷ b ∷ c ∷ d ∷ rest) = body (mix_block h1 (a + b * 2 ^ 8 + c * 2 ^ 16 + d * 2 ^ 24)) rest
body h1 (a ∷ b ∷ c ∷ []) = bit_xor h1 (scramble (bit_xor (bit_xor (shl c 16) (shl b 8)) a))
body h1 (a ∷ b ∷ []) = bit_xor h1 (scramble (bit_xor (shl b 8) a))
body h1 (a ∷ []) = bit_xor h1 (scramble a)
body h1 [] = h1

-- The last line before the `return`.
finish : ℕ → ℕ → ℕ
finish h len =
    let h1 = bit_xor h len in
    let h2 = mul32 (bit_xor h1 (shr h1 16)) 0x85ebca6b in
    let h3 = mul32 (bit_xor h2 (shr h2 13)) 0xc2b2ae35 in bit_xor h3 (shr h3 16)

pub murmurhash3_32 : List ℕ → ℕ → ℕ
unfolding body finish
murmurhash3_32 key seed = finish (body seed key) (length key)
