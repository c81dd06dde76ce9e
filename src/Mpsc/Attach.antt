-- ===== src/Mpsc/Attach.antt =====
-- How the daemon creates the segment and a node attaches to it (src/infra/nos_shm.c). What
-- `shm_open`, `ftruncate` and `mmap` answer, and what a node reads of the magic number while it
-- waits, are arguments.
pub mod Found
use gemini_nos.Base.{
  ℕ, zero, suc, ◌+◌, Bool, true, false, Option, none, some, ◌==◌, if◌then◌else◌, Status, nos_ok,
  nos_err,
}
use gemini_nos.Mpsc.{Nodes, register_node}
use gemini_nos.Shm.{Block, Heap, init_shm_pool}

abbrev pub shm_magic : ℕ
shm_magic = 0xAABBCCDD

-- `nos_shm_header_t` with the blocks behind it
pub record Segment : Type 0 where
  pub magic : ℕ
  pub nodes : Nodes
  pub heap : Heap

-- `_nos_shm_create_and_init`
pub create_and_init : Bool → Bool → Bool → Segment → Status × Segment
create_and_init false sizes maps seg = (nos_err, seg)
create_and_init true false maps seg = (nos_err, seg)
create_and_init true true false seg = (nos_err, seg)
create_and_init true true true seg = (
  nos_ok,
  record {
    magic = shm_magic;
    nodes = record {
      node_name = λ _. 0;
      in_use = λ _. false;
      rx_queue = λ _. record { head = 0; tail = 0; offsets = λ _. 0 };
    };
    heap = init_shm_pool seg.heap.block;
  },
)

-- The loop in which `nos_shm_init` waits for the magic number: `reading k` is the one that it
-- reads the `k`-th time, and `n` more readings are left.
pub await_magic : (ℕ → ℕ) → ℕ → ℕ → Bool
await_magic reading k zero = false
await_magic reading k (suc n) =
    let rest = await_magic reading (suc k) n in if reading k == shm_magic then true else rest

-- What `g_shm_base` holds: `NULL`, `MAP_FAILED`, or where the segment is mapped.
pub data ShmBase : Type 0 where
  unmapped map_failed mapped : ShmBase

-- `g_shm_base`, whether `g_shm_hdr` is set, and `g_local_queue_idx`, with `none` for -1
pub record Attachment : Type 0 where
  pub base : ShmBase
  pub header_set : Bool
  pub local_queue_idx : Option ℕ

-- `nos_shm_init`, where it may read the magic number 51 times. The mapping stays where it then fails,
-- and a registry that is full leaves `g_local_queue_idx` as it is.
pub shm_init : Bool → Bool → (ℕ → ℕ) → ℕ → Attachment → Nodes → Status × Attachment × Nodes
unfolding await_magic
shm_init false maps reading name a nodes = (nos_err, a, nodes)
shm_init true false reading name a nodes = (nos_err, record a { base = map_failed }, nodes)
shm_init true true reading name a nodes =
    let a' = record a { base = mapped; header_set = true } in
    if await_magic reading 0 51
    then elim (register_node nodes name) [
      | some (i, nodes') ↦ (nos_ok, record a' { local_queue_idx = some i }, nodes')
      | none ↦ elim a.local_queue_idx [ none ↦ (nos_err, a', nodes) | some i ↦ (nos_ok, a', nodes) ]
    ]
    else (nos_err, a', nodes)

-- `nos_shm_get_local_queue`, as the index of the queue
abbrev pub get_local_queue : Attachment → Option ℕ
get_local_queue a = a.local_queue_idx
