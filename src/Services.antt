-- ===== src/Services.antt =====
-- The service registry of src/core/nos_scheduler.c: an array of at most 64 entries, searched by
-- service id. A slot past `count` keeps what it held. Components, threads, node names and paths are
-- named by numbers.
pub mod Routes
pub mod Lookup
pub mod Register
pub mod Handles
mod Tests
use gemini_nos.Base.{
  strncpy, ℕ, ◌+◌, ◌-◌, Bool, true, false, Option, none, some, leb, ◌==◌, if◌then◌else◌, update,
  Status, nos_ok, nos_err,
}
use gemini_nos.Base.Scan.{scan}

-- `service_entry_t`; 0 is `NULL`, and names and paths are C strings.
pub record Entry : Type 0 where
  pub service_id : ℕ
  pub local_provider : ℕ
  pub local_thread : ℕ
  pub remote_node_name : ℕ
  pub remote_uds_path : ℕ
  pub is_remote : Bool

-- `g_service_registry` and `g_service_count`
pub record Registry : Type 0 where
  pub entry : ℕ → Entry
  pub count : ℕ

abbrev pub max_services : ℕ
max_services = 64

-- `find_service_entry`, as an index
pub find_entry : Registry → ℕ → Option ℕ
find_entry r id = scan (λ i. (r.entry i).service_id == id) 0 r.count

-- The slot that a registration writes, with the registry grown if it is a new one; `none` is a
-- registry that is full.
pub slot_for : Registry → ℕ → Option (ℕ × Registry)
unfolding find_entry
slot_for r id = elim (find_entry r id) [
  | some i ↦ some (i, r)
  | none ↦
      if leb max_services r.count then none else some (r.count, record r { count = r.count + 1 })
]

abbrev pub write_entry : Registry → ℕ → Entry → Registry
write_entry r i e = record r { entry = update r.entry i e }

-- `nos_service_register_provider_bind`
pub register_provider_bind : Registry → ℕ → ℕ → ℕ → Status × Registry
unfolding slot_for
register_provider_bind r id provider thread = elim (slot_for r id) [
  | none ↦ (nos_err, r)
  | some (i, r') ↦ (
    nos_ok,
    write_entry r' i (record (r'.entry i) {
      service_id = id;
      local_provider = provider;
      local_thread = thread;
      is_remote = false;
    }),
  )
]

-- `nos_service_register_remote_ex`. A name or path that is `NULL` leaves the one in the slot,
-- which keeps 31 bytes of another name, and 107 of a path.
pub register_remote_ex : Registry → ℕ → ℕ → ℕ → Status × Registry
unfolding slot_for
register_remote_ex r id node path = elim (slot_for r id) [
  | none ↦ (nos_err, r)
  | some (i, r') ↦
      let e = r'.entry i in
      (
        nos_ok,
        write_entry r' i (record e {
          service_id = id;
          is_remote = true;
          remote_node_name = if node == 0 then e.remote_node_name else strncpy 31 node;
          remote_uds_path = if path == 0 then e.remote_uds_path else strncpy 107 path;
        }),
      )
]

-- `nos_service_unregister_provider`: the last entry takes the place of the one that goes.
pub unregister_provider : Registry → ℕ → Status × Registry
unfolding find_entry
unregister_provider r id = elim (find_entry r id) [
  | none ↦ (nos_err, r)
  | some i ↦
      (nos_ok, record r { entry = update r.entry i (r.entry (r.count - 1)); count = r.count - 1 })
]

-- `nos_embedded_service_t g_embedded_registry[]` and `g_embedded_count` of src/core/nos_service.c. A
-- table of functions is a number.
pub record Embedded : Type 0 where
  pub service_name : ℕ → ℕ
  pub ops : ℕ → ℕ
  pub count : ℕ

abbrev pub max_embedded_services : ℕ
max_embedded_services = 32

-- `nos_embedded_service_register`
pub embedded_register : Embedded → ℕ → ℕ → Status × Embedded
embedded_register r name ops = if leb max_embedded_services r.count then (nos_err, r) else (
  nos_ok,
  record {
    service_name = update r.service_name r.count name;
    ops = update r.ops r.count ops;
    count = r.count + 1;
  },
)

-- `nos_embedded_service_get`; `none` is `NULL`.
pub embedded_get : Embedded → ℕ → Option ℕ
embedded_get r name = elim (scan (λ i. r.service_name i == name) 0 r.count) [
  | none ↦ none
  | some i ↦ some (r.ops i)
]

-- Where `nos_service_msg_send` sends a message for a service: to a thread of this node, through the
-- shared segment, through a socket, or nowhere. `flags` are those of the buffer.
pub data Route : Type 0 where
  to_thread : ℕ → Route
  by_shm by_uds : ℕ → ℕ → Route
  no_route : Route

-- `nos_service_msg_send`, with `nos_transport_remote_uds_send`, up to the call that it ends in
pub route : Registry → ℕ → ℕ → Route
unfolding find_entry
route r id flags = elim (find_entry r id) [
  | none ↦ no_route
  | some i ↦
      let e = r.entry i in
      if e.is_remote
      then (if flags == 1
          then by_shm e.remote_node_name e.remote_uds_path
          else by_uds e.remote_node_name e.remote_uds_path)
      else to_thread e.local_thread
]

-- `nos_service_register_remote`. The name "Unknown" is a number that the caller gives.
pub register_remote : ℕ → Registry → ℕ → ℕ → Status × Registry
unfolding register_remote_ex
register_remote unknown r id path = register_remote_ex r id unknown path
