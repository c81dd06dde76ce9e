-- ===== src/Buffer/Room.antt =====
-- The layout of a buffer, [headroom | data | tailroom], under `nos_buffer_push` and
-- `nos_buffer_pull`.
use gemini_nos.Base.{ℕ, ◌+◌, ◌<◌, ◌≡◌, some, arith, u32_mod}
use gemini_nos.Buffer.{Buffer, push, pull}

-- The three parts make up the capacity, and `data` points behind the headroom.
pub record IsLaidOut (b : Buffer) : Type 0 where
  pub parts : b.headroom + b.len + b.tailroom ≡ b.capacity
  pub pointer : b.data_ptr ≡ b.raw_data + b.headroom
  pub small : b.capacity < u32_mod

module _ {b b' : Buffer} (n : ℕ) (v : IsLaidOut b) where
  -- A push that succeeds on a laid out buffer leaves it laid out, longer by `n` at the front.
  pub push-IsLaidOut :
      push b n ≡ some b'
      → IsLaidOut b'
        × (b'.len ≡ b.len + n)
        × (b'.data_ptr + n ≡ b.data_ptr)
        × (b'.tailroom ≡ b.tailroom)
  unfolding push
  push-IsLaidOut e = ground arith

  -- A pull that succeeds on a laid out buffer leaves it laid out, shorter by `n` at the front.
  pub pull-IsLaidOut :
      pull b n ≡ some b'
      → IsLaidOut b'
        × (b'.len + n ≡ b.len)
        × (b'.data_ptr ≡ b.data_ptr + n)
        × (b'.tailroom ≡ b.tailroom)
  unfolding pull
  pull-IsLaidOut e = ground arith

  -- On a laid out buffer, pulling what was pushed gives the buffer back.
  pub pull-push : push b n ≡ some b' → pull b' n ≡ some b
  unfolding push pull
  pull-push e = ground arith

  -- On a laid out buffer, pushing what was pulled gives the buffer back.
  pub push-pull : pull b n ≡ some b' → push b' n ≡ some b
  unfolding push pull
  push-pull e = ground arith
