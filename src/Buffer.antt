-- ===== src/Buffer.antt =====
-- `nos_buffer_t` of include/nos_buffer.h, and the functions of src/core/nos_buffer.c that work on one
-- buffer alone. An address is a number; a `NULL` result is `none`, and any other result is the new
-- `data` field of the buffer returned.
pub mod Room
mod Tests
use gemini_nos.Base.{ℕ, ◌+◌, ◌-◌, Option, none, some, ltb, if◌then◌else◌, add32, sub32}

pub record Buffer : Type 0 where
  pub raw_data : ℕ
  pub data_ptr : ℕ
  pub capacity : ℕ
  pub len : ℕ
  pub headroom : ℕ
  pub tailroom : ℕ
  pub ref_cnt : ℕ
  pub bin_idx : ℕ
  pub pool_idx : ℕ
  pub flags : ℕ

-- `nos_buffer_push`
pub push : Buffer → ℕ → Option Buffer
push b size =
    if ltb b.headroom size
    then none
    else some (record b {
      headroom = sub32 b.headroom size;
      data_ptr = b.data_ptr - size;
      len = add32 b.len size;
    })

-- `nos_buffer_pull`
pub pull : Buffer → ℕ → Option Buffer
pull b size =
    if ltb b.len size
    then none
    else some (record b {
      headroom = add32 b.headroom size;
      data_ptr = b.data_ptr + size;
      len = sub32 b.len size;
    })
