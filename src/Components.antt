-- ===== src/Components.antt =====
-- The sample components of src/components: what each answers to a message, and the state it keeps.
-- A handler takes what `nos_buffer_alloc` (or `nos_shm_buffer_alloc`) gives it, `none` for `NULL`;
-- a buffer from there holds what its last user left in it, so a field that the handler does not
-- write keeps that. What a handler sends is its result; it then releases its own reference, which
-- only model_4 does not. What it logs is left out, except for the end of a test. Counters are of
-- 32 bits.
pub mod Perf
pub mod Remote
pub mod Stateful
pub mod Heartbeat
mod Tests
use gemini_nos.Base.{ℕ, ◌+◌, ◌*◌}

-- `nos_service_msg_t`, and the bytes that follow it in the buffer
pub record Message : Type 0 where
  pub magic : ℕ
  pub version : ℕ
  pub dst_service : ℕ
  pub src_component : ℕ
  pub msg_code : ℕ
  pub seq : ℕ
  pub flags : ℕ
  pub payload_len : ℕ
  pub payload : ℕ → ℕ

abbrev pub ipc_magic : ℕ
ipc_magic = 0x4E4F

abbrev pub msg_size : ℕ
msg_size = 28

-- The header that every component writes into a buffer that it got, with the payload length.
pub envelope : ℕ → ℕ → ℕ → ℕ → Message → Message
envelope dst src code len buf = record buf {
  magic = ipc_magic;
  dst_service = dst;
  src_component = src;
  msg_code = code;
  payload_len = len;
}

-- The 32-bit word at byte `i`, `*(uint32_t*)(bytes + i)`
abbrev pub word : (ℕ → ℕ) → ℕ → ℕ
word bytes i = bytes i + 256 * bytes (i + 1) + 65536 * bytes (i + 2) + 16777216 * bytes (i + 3)
