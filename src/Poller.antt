-- ===== src/Poller.antt =====
-- The components and the file descriptors of a thread (src/core/nos_scheduler.c). `epoll_ctl` keeps
-- with a descriptor the pointer that it is given, here a slot of `fd_entries`, and `epoll_wait` hands
-- that pointer back; whether it accepts a descriptor is an argument. `components` and `fd_entries`
-- are arrays. Components, callbacks and arguments are named by numbers.
pub mod Routing
mod Tests
use gemini_nos.Base.{
  ℕ, ◌+◌, ◌-◌, Bool, Option, none, some, leb, ◌==◌, if◌then◌else◌, update, Status, nos_ok, nos_err,
}
use gemini_nos.Base.Scan.{scan}

-- `nos_fd_entry_t`
pub record FdEntry : Type 0 where
  pub fd : ℕ
  pub callback : ℕ
  pub arg : ℕ

-- The part of `nos_thread_t` that these functions use; `watched` is the interest list of `epoll_fd`.
pub record Poller : Type 0 where
  pub fd_entries : ℕ → FdEntry
  pub fd_count : ℕ
  pub watched : ℕ → Option ℕ

abbrev pub max_fds : ℕ
max_fds = 32

-- `nos_scheduler_add_fd_ex`; `none` is a thread that is `NULL`, and `accepted` the answer of
-- `epoll_ctl`.
pub add_fd_ex : Option Poller → ℕ → ℕ → ℕ → Bool → Status × Option Poller
add_fd_ex none fd callback arg accepted = (nos_err, none)
add_fd_ex (some p) fd callback arg accepted =
    if leb max_fds p.fd_count
    then (nos_err, some p)
    else let p' = record p {
      fd_entries =
          update p.fd_entries p.fd_count (record { fd = fd; callback = callback; arg = arg });
      fd_count = p.fd_count + 1;
    } in
      if accepted
      then (nos_ok, some (record p' { watched = update p.watched fd (some p.fd_count) }))
      else (nos_err, some p')

-- `nos_scheduler_remove_fd`: the last entry takes the place of the one that goes.
pub remove_fd : Option Poller → ℕ → Status × Option Poller
remove_fd none fd = (nos_err, none)
remove_fd (some p) fd =
    let p' = record p { watched = update p.watched fd none } in
    elim (scan (λ i. (p.fd_entries i).fd == fd) 0 p.fd_count) [
      | none ↦ (nos_err, some p')
      | some i ↦ (
        nos_ok,
        some (record p' {
          fd_entries = update p.fd_entries i (p.fd_entries (p.fd_count - 1));
          fd_count = p.fd_count - 1;
        }),
      )
    ]

-- The entry whose callback the loop runs for an event on a descriptor.
pub dispatched : Poller → ℕ → Option FdEntry
dispatched p fd = elim (p.watched fd) [ none ↦ none | some i ↦ some (p.fd_entries i) ]

-- `components` and `component_count` of a thread
pub record Roster : Type 0 where
  pub components : ℕ → ℕ
  pub component_count : ℕ

abbrev pub max_comp_per_thread : ℕ
max_comp_per_thread = 32

-- `nos_scheduler_register_component`; a thread or component that is `NULL` is `none`.
pub register_component : Option Roster → Option ℕ → Status × Option Roster
register_component none comp = (nos_err, none)
register_component (some r) none = (nos_err, some r)
register_component (some r) (some comp) =
    if leb max_comp_per_thread r.component_count then (nos_err, some r) else (
      nos_ok,
      some (record {
        components = update r.components r.component_count comp;
        component_count = r.component_count + 1;
      }),
    )

-- The place of a component in a thread.
pub place_of : Roster → ℕ → Option ℕ
place_of r comp = scan (λ i. r.components i == comp) 0 r.component_count

-- `nos_scheduler_unregister_component`
pub unregister_component : Option Roster → Option ℕ → Status × Option Roster
unfolding place_of
unregister_component none comp = (nos_err, none)
unregister_component (some r) none = (nos_err, some r)
unregister_component (some r) (some comp) = elim (place_of r comp) [
  | none ↦ (nos_err, some r)
  | some i ↦ (
    nos_ok,
    some (record {
      components = update r.components i (r.components (r.component_count - 1));
      component_count = r.component_count - 1;
    }),
  )
]

-- What `find_thread_of_component` gives: the management thread, worker `t`, or no thread.
pub data Whereabouts : Type 0 where
  management : Whereabouts
  worker : ℕ → Whereabouts
  nowhere : Whereabouts

abbrev holds : Roster → ℕ → Bool
holds r comp = elim (place_of r comp) [ none ↦ Bool.false | some i ↦ Bool.true ]

-- `find_thread_of_component`; `none` is a management thread that is `NULL`.
pub find_thread_of_component : Option Roster → (ℕ → Roster) → ℕ → ℕ → Whereabouts
unfolding place_of
find_thread_of_component mgmt workers worker_count comp =
    if managed mgmt then management else elim (scan (λ t. holds (workers t) comp) 0 worker_count) [
      | none ↦ nowhere
      | some t ↦ worker t
    ]
  where
    managed : Option Roster → Bool
    managed none = Bool.false
    managed (some r) = holds r comp

-- `nos_scheduler_add_fd`. All descriptors are watched for input, so the events asked for are not kept.
pub add_fd : Option Poller → ℕ → ℕ → ℕ → Bool → Status × Option Poller
unfolding add_fd_ex
add_fd p fd callback arg accepted = add_fd_ex p fd callback arg accepted
