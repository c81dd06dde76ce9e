-- ===== src/Node.antt =====
-- The components of a node (src/core/nos_node_mgr.c): loading them from the manifest, the routes of
-- its services, and unloading and reloading at run time. A component object is named by a number,
-- and its fields stand in the table `comp`; names, files and paths are numbers, and a path of 0 is
-- `NULL` or empty. What `dlopen`, `dlsym` and a component's own functions answer is an argument.
pub mod Drop
pub mod Unload
pub mod Tests
use gemini_nos.Base.{
  ℕ, ◌+◌, ◌-◌, Bool, ◌&&◌, not, Option, none, some, ltb, leb, ◌==◌, if◌then◌else◌, update, List, [],
  ◌∷◌, Status, nos_ok, nos_err,
}
use gemini_nos.Base.Scan.{scan}
use gemini_nos.Log.{Log, set_comp_info}
use gemini_nos.Poller.{Roster, register_component, unregister_component}
use gemini_nos.Services.{Registry, register_provider_bind, register_remote_ex, unregister_provider}

-- `nos_comp_status_t`
pub data CompStatus : Type 0 where
  loaded inited active stopped error : CompStatus

-- The fields of `nos_component_t` that the node reads.
pub record Component : Type 0 where
  pub id : ℕ
  pub name : ℕ
  pub status : CompStatus

-- `loaded_comp_info_t`; a thread is the number of a worker.
pub record LoadedInfo : Type 0 where
  pub comp : ℕ
  pub lib_name : ℕ
  pub owner_thread : ℕ

-- A component of `nos_thread_def_t`
pub record CompDef : Type 0 where
  pub id : ℕ
  pub name : ℕ
  pub model : ℕ

-- `nos_service_def_t`
pub record ServiceDef : Type 0 where
  pub service_id : ℕ
  pub node_name : ℕ
  pub provider_comp_id : ℕ
  pub remote_uds_path : ℕ

-- What the file of a component does when it is loaded.
pub record Library : Type 0 where
  pub opens : ℕ → Bool
  pub has_symbol : ℕ → Bool
  pub exports : ℕ → ℕ → Bool
  pub has_init : ℕ → Bool
  pub inits : ℕ → ℕ → Bool

-- `nos_node_ctx_t`, with the objects it refers to. `next_comp` is the object that the next `calloc`
-- gives.
pub record Node : Type 0 where
  pub comp : ℕ → Component
  pub next_comp : ℕ
  pub loaded_info : ℕ → LoadedInfo
  pub loaded_count : ℕ
  pub workers : ℕ → Roster
  pub worker_count : ℕ
  pub registry : Registry
  pub log : Log
  pub name : ℕ
  pub services : List ServiceDef

abbrev pub max_components_per_node : ℕ
max_components_per_node = 64

-- `node_load_component_internal`
pub load_component : Library → ℕ → ℕ → ℕ → Node → Option ℕ × Node
load_component lib id name file n =
    if not (lib.opens file)
    then (none, n)
    else if not (lib.has_symbol file)
    then (none, n)
    else if not (lib.exports file id)
    then (none, n)
    else if lib.has_init file && not (lib.inits file id)
    then (none, n)
    else (
      some n.next_comp,
      record n {
        comp = update n.comp n.next_comp (record { id = id; name = name; status = inited });
        next_comp = n.next_comp + 1;
        log = set_comp_info n.log id name;
      },
    )

-- `node_get_loaded_comp_by_id`
pub loaded_comp_by_id : Node → ℕ → Option ℕ
loaded_comp_by_id n id =
    elim (scan (λ i. (n.comp (n.loaded_info i).comp).id == id) 0 n.loaded_count) [
      | none ↦ none
      | some i ↦ some (n.loaded_info i).comp
    ]

abbrev or_old : Roster → Option Roster → Roster
or_old r none = r
or_old r (some r') = r'

-- `nos_scheduler_register_component` on worker `t`
abbrev register_on : ℕ → ℕ → Node → Node
register_on t c n = record n {
  workers =
      update n.workers t
        (or_old (n.workers t) (register_component (some (n.workers t)) (some c)).1);
}

-- The entry that a component gets in `loaded_info`, where there is room.
abbrev add_loaded : LoadedInfo → Node → Node
add_loaded info n = record n {
  loaded_info = update n.loaded_info n.loaded_count info;
  loaded_count = n.loaded_count + 1;
}

-- A round of the inner loop of `node_init_workers`, on worker `t`
pub init_comp : Library → ℕ → CompDef → Node → Node
unfolding load_component
init_comp lib t def n =
    let (c, n') = load_component lib def.id def.name def.model n in
    elim c [
      | none ↦ n'
      | some c ↦
          let info : LoadedInfo = record { comp = c; lib_name = def.model; owner_thread = t } in
          register_on t c
            (if ltb n'.loaded_count max_components_per_node then add_loaded info n' else n')
    ]

-- The inner loop, over the components of a thread
pub init_comps : Library → ℕ → List CompDef → Node → Node
unfolding init_comp
init_comps lib t [] n = n
init_comps lib t (def ∷ defs) n = init_comps lib t defs (init_comp lib t def n)

-- The outer loop of `node_init_workers`, over the threads of the manifest from worker `t` on; a
-- worker is set up with no component.
pub init_workers : Library → ℕ → List (List CompDef) → Node → Node
unfolding init_comps
init_workers lib t [] n = n
init_workers lib t (defs ∷ threads) n =
    if leb 8 t
    then n
    else let empty : Roster = record (n.workers t) { component_count = 0 } in
      let n' = init_comps lib t defs (record n { workers = update n.workers t empty }) in
      init_workers lib (t + 1) threads (record n' { worker_count = n'.worker_count + 1 })

-- The search of `node_setup_routing` for the worker that has the component of an id.
pub owner_of : Node → ℕ → Option ℕ
owner_of n id =
    scan
      (λ t.
        elim (scan (λ c. (n.comp ((n.workers t).components c)).id == id) 0
          (n.workers t).component_count) [ none ↦ Bool.false | some c ↦ Bool.true ])
      0 n.worker_count

-- A round of `node_setup_routing`
pub setup_route : ℕ → ServiceDef → Node → Node
unfolding loaded_comp_by_id owner_of
setup_route current svc n =
    if svc.node_name == current
    then elim (loaded_comp_by_id n svc.provider_comp_id) [
      | none ↦ n
      | some provider ↦ elim (owner_of n svc.provider_comp_id) [
        | none ↦ n
        | some t ↦ record n {
          registry = (register_provider_bind n.registry svc.service_id provider t).1;
        }
      ]
    ]
    else if svc.remote_uds_path == 0
    then n
    else record n {
      registry = (register_remote_ex n.registry svc.service_id svc.node_name svc.remote_uds_path).1;
    }

-- `node_setup_routing`, over a list of services
pub setup_routing : ℕ → List ServiceDef → Node → Node
unfolding setup_route
setup_routing current [] n = n
setup_routing current (svc ∷ svcs) n = setup_routing current svcs (setup_route current svc n)

-- The loop of `node_unload_component` over the services of the manifest
pub drop_services : ℕ → List ServiceDef → Registry → Registry
drop_services id [] r = r
drop_services id (svc ∷ svcs) r =
    drop_services id svcs
      (if svc.provider_comp_id == id then (unregister_provider r svc.service_id).1 else r)

-- The place of a component in `loaded_info`, by its name.
pub loaded_at : Node → ℕ → Option ℕ
loaded_at n name = scan (λ i. (n.comp (n.loaded_info i).comp).name == name) 0 n.loaded_count

-- `for (i = idx; i < count - 1; i++) loaded_info[i] = loaded_info[i + 1]`
abbrev pub close_gap {ℓ} : {A : Type ℓ} → (ℕ → A) → ℕ → ℕ → ℕ → A
close_gap a idx count j = if leb idx j && ltb j (count - 1) then a (j + 1) else a j

-- `node_unload_component`. The component's `stop` runs after its services are gone, and its object is
-- freed.
pub unload_component : ℕ → Node → Status × Node
unfolding loaded_at drop_services
unload_component name n = elim (loaded_at n name) [
  | none ↦ (nos_err, n)
  | some idx ↦
      let info = n.loaded_info idx in
      let t = info.owner_thread in
      let left = (unregister_component (some (n.workers t)) (some info.comp)).1 in
      (
        nos_ok,
        record n {
          workers = update n.workers t (or_old (n.workers t) left);
          registry = drop_services (n.comp info.comp).id n.services n.registry;
          loaded_info = close_gap n.loaded_info idx n.loaded_count;
          loaded_count = n.loaded_count - 1;
        },
      )
]

-- The loop of `node_reload_component` over the services of the manifest
pub bind_services : ℕ → ℕ → ℕ → ℕ → List ServiceDef → Registry → Registry
bind_services id node_name comp t [] r = r
bind_services id node_name comp t (svc ∷ svcs) r = bind_services id node_name comp t svcs (
    if (svc.provider_comp_id == id) && (svc.node_name == node_name)
    then (register_provider_bind r svc.service_id comp t).1
    else r)

-- What `node_reload_component` does with a component that has loaded again. The new component is
-- registered on the thread and bound only if there is room for it in `loaded_info`.
pub readmit : ℕ → LoadedInfo → Node → Node
unfolding bind_services
readmit id info n =
    if ltb n.loaded_count max_components_per_node
    then (let n' = register_on info.owner_thread info.comp (add_loaded info n) in
        record n' {
          registry = bind_services id n'.name info.comp info.owner_thread n'.services n'.registry;
        })
    else n

-- `node_reload_component`
pub reload_component : Library → ℕ → Node → Status × Node
unfolding loaded_at unload_component load_component readmit
reload_component lib name n = elim (loaded_at n name) [
  | none ↦ (nos_err, n)
  | some idx ↦
      let info = n.loaded_info idx in
      let id = (n.comp info.comp).id in
      let (c, n') = load_component lib id name info.lib_name (unload_component name n).1 in
      elim c [ none ↦ (nos_err, n') | some c ↦ (nos_ok, readmit id (record info { comp = c }) n') ]
]
