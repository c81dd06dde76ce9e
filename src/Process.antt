-- ===== src/Process.antt =====
-- The process of a node, src/core/nos_node_main.c: how `main` ends the parts that the node
-- consists of. The parts are those of Node, Thread, Memory, Kv and Log.
pub mod Shutdown
mod Tests
use gemini_nos.Base.{
  ℕ, zero, suc, ◌+◌, Bool, true, false, Option, none, some, if◌then◌else◌, update, List, [], ◌∷◌,
}
use gemini_nos.Kv.Create.{Database}
use gemini_nos.Kv.Close.{db_deinit}
use gemini_nos.Log.{Service}
use gemini_nos.Log
use gemini_nos.Memory.{Memory}
use gemini_nos.Node.{Node, Library, CompDef, ServiceDef, init_workers, setup_routing}
use gemini_nos.Pool.{PoolDef, init_pool, deinit_pool}
use gemini_nos.Thread.{Thread, stop, deinit_thread}

-- `g_node_ctx` with the state of the parts. `mgmt` is the management thread, `log` has the flags
-- of the log whose ring is in `node`, and `closed` are the components that were freed, and whose
-- files were closed, the last one first.
pub record Process : Type 0 where
  pub node : Node
  pub mgmt : Thread
  pub workers : ℕ → Thread
  pub memory : Memory
  pub database : Database
  pub log : Service
  pub closed : List ℕ

-- What the manifest gives for a node: `nos_node_def_t`. An entry of `platform_inits` is what the
-- function does.
pub record NodeDef : Type 1 where
  pub name : ℕ
  pub platform_inits : List (Process → Process)
  pub buffer_pools : Option (ℕ → PoolDef)
  pub threads : List (List CompDef)
  pub services : List ServiceDef

pub run_inits : List (Process → Process) → Process → Process
run_inits [] p = p
run_inits (init ∷ inits) p = run_inits inits (init p)

-- `main` up to the start of the threads; `none` is a node without a manifest, for which it ends at
-- once. `shm` and `mgmt` are what `nos_shm_init` and `node_init_mgmt` do, whose answer is not
-- looked at, `lib` answers for the files of the components, and `raw` is the memory that the bins
-- get.
pub start_up :
    (Process → Process)
    → (Process → Process)
    → Library
    → (ℕ → ℕ)
    → Option NodeDef
    → Process
    → Option Process
unfolding run_inits
start_up shm mgmt lib raw none p = none
start_up shm mgmt lib raw (some def) p =
    let named = record p { node = record (p.node) { name = def.name; services = def.services } } in
    let inited = run_inits def.platform_inits (shm named) in
    let pooled = record inited {
      memory = record (inited.memory) {
        pool = (init_pool raw def.buffer_pools inited.memory.pool).1;
      };
    } in
    let managed = mgmt pooled in
    let node = setup_routing def.name def.services (init_workers lib 0 def.threads managed.node) in
    some (record managed { node = node })

pub thread_or : Thread → Option Thread → Thread
thread_or t none = t
thread_or t (some t') = t'

-- The loop that stops the workers, from worker `i` on
pub stop_workers : ℕ → ℕ → (ℕ → Thread) → ℕ → Thread
unfolding thread_or
stop_workers i zero workers = workers
stop_workers i (suc n) workers =
    stop_workers (i + 1) n (update workers i (thread_or (workers i) (stop (some (workers i)))))

-- `nos_scheduler_stop` of every thread
pub stop_threads : Process → Process
unfolding stop_workers thread_or
stop_threads p = record p {
  mgmt = thread_or p.mgmt (stop (some p.mgmt));
  workers = stop_workers 0 p.node.worker_count p.workers;
}

-- The loop that releases the components, from the last of the first `n` down. `has_stop` and
-- `stop_comp` are the callback of a component, which is code of its own, and what it does.
pub release_comps : (ℕ → Bool) → (ℕ → Process → Process) → ℕ → Process → Process
release_comps has_stop stop_comp zero p = p
release_comps has_stop stop_comp (suc i) p =
    let c = (p.node.loaded_info i).comp in
    let stopped : Process = if has_stop c then stop_comp c p else p in
    release_comps has_stop stop_comp i (record stopped { closed = c ∷ stopped.closed })

-- The loop that ends the workers, from worker `i` on
pub deinit_workers : ℕ → ℕ → Memory → (ℕ → Thread) → Memory × (ℕ → Thread)
unfolding thread_or
deinit_workers i zero m workers = (m, workers)
deinit_workers i (suc n) m workers =
    let (m', t) = deinit_thread m (some (workers i)) in
    deinit_workers (i + 1) n m' (update workers i (thread_or (workers i) t))

-- `nos_scheduler_deinit_thread` of every thread
pub deinit_threads : Process → Process
unfolding deinit_workers thread_or
deinit_threads p =
    let (m, mgmt) = deinit_thread p.memory (some p.mgmt) in
    let (m', workers) = deinit_workers 0 p.node.worker_count m p.workers in
    record p { memory = m'; mgmt = thread_or p.mgmt mgmt; workers = workers }

-- The pool, the store and the log, in this order. `fuel` bounds the rounds of the log's consumer.
pub deinit_rest : ℕ → Process → Process
deinit_rest fuel p = record p {
  memory = record (p.memory) { pool = deinit_pool p.memory.pool };
  database = (db_deinit p.database).1;
  log = Log.deinit fuel (record (p.log) { body = p.node.log });
}

-- `main` from the end of its wait on. `until_joined` is what the threads still do until they have
-- ended and are joined.
pub shutdown : (Process → Process) → (ℕ → Bool) → (ℕ → Process → Process) → ℕ → Process → Process
unfolding stop_threads release_comps deinit_threads deinit_rest
shutdown until_joined has_stop stop_comp fuel p =
    let joined = until_joined (stop_threads p) in
    let released = release_comps has_stop stop_comp joined.node.loaded_count joined in
    deinit_rest fuel (deinit_threads released)
