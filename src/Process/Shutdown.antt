-- ===== src/Process/Shutdown.antt =====
-- What the end of a process leaves behind.
use gemini_nos.Base.{
  ℕ, zero, suc, ◌+◌, ◌≤◌, ◌<◌, ◌≡◌, refl, sym, ap, ap₂, ◌∙◌, subst, arith, Bool, Bool-cases, inl,
  inr, some, if◌then◌else◌, update, update_ne, update_self, List, [], ◌∷◌, ◌++◌, ℕ_discrete,
}
use gemini_nos.Memory.{BufPtr, Memory, release_all}
use gemini_nos.Node.{Node}
use gemini_nos.Pool.{deinit_pool}
use gemini_nos.Queue.Fifo.{InRange, messages}
use gemini_nos.Thread.{Thread, deinit_thread}
use gemini_nos.Thread.Drain.{deinit_thread_lem}
use gemini_nos.Process.{
  Process, stop_threads, release_comps, deinit_workers, deinit_threads, deinit_rest, shutdown,
  thread_or,
}

-- The messages that wait at workers `i` to `i + n - 1`, in the order of the workers.
pub waiting : (ℕ → Thread) → ℕ → ℕ → List BufPtr
waiting workers i zero = []
waiting workers i (suc n) = messages (workers i).inbox ++ waiting workers (i + 1) n

release_all-append :
    (xs ys : List BufPtr) (m : Memory)
    → release_all (xs ++ ys) m ≡ release_all ys (release_all xs m)
unfolding release_all
release_all-append [] ys m = refl
release_all-append (x ∷ xs) ys m = release_all-append xs ys _

waiting-update_below :
    (workers : ℕ → Thread) (t : Thread) (i j n : ℕ)
    → i < j
    → waiting (update workers i t) j n ≡ waiting workers j n
unfolding waiting
waiting-update_below workers t i j zero h = refl
waiting-update_below workers t i j (suc n) h =
    rw (update_ne workers {i = i} {j = j} t (omega arith)) (
      ap (λ l. messages (workers j).inbox ++ l)
        (waiting-update_below workers t i (j + 1) n (omega arith)))

picked : (t u : Thread) → thread_or t (some u) ≡ u
unfolding thread_or
picked t u = refl

-- The end of workers `i` to `i + n - 1`
record IsEnded (workers : ℕ → Thread) (i n : ℕ) (m m' : Memory) (ended : ℕ → Thread) : Type 0 where
  released : m' ≡ release_all (waiting workers i n) m
  empty : (j : ℕ) → i ≤ j → j < i + n → messages (ended j).inbox ≡ []
  others : (j : ℕ) → j < i → ended j ≡ workers j

deinit_workers-IsEnded :
    (i n : ℕ) (m : Memory) (workers : ℕ → Thread)
    → ((j : ℕ) → i ≤ j → j < i + n → InRange (workers j).inbox)
    → let r = deinit_workers i n m workers in IsEnded workers i n m r.0 r.1
unfolding deinit_workers waiting release_all
deinit_workers-IsEnded i zero m workers v = record {
  released = refl;
  empty = λ j p q. absurd (omega arith);
  others = λ j p. refl;
}
deinit_workers-IsEnded i (suc n) m workers v =
    let (m', o) = deinit_thread m (some (workers i)) in
    let t = thread_or (workers i) o in
    let (u, e, d) = deinit_thread_lem m (workers i) (v i (omega arith) (omega arith)) in
    let rest = deinit_workers-IsEnded (i + 1) n m' (update workers i t) (λ j p q.
      subst (λ (k : Thread). InRange k.inbox) (sym (update_ne workers t (omega (arith, p))))
        (v j (omega arith) (omega arith))) in
    let ended = (deinit_workers (i + 1) n m' (update workers i t)).1 in
    let here : messages (ended i).inbox ≡ [] =
      ap (λ (k : Thread). messages k.inbox)
        (rest.others i (omega arith)
          ∙ update_self workers i t
          ∙ ap (thread_or (workers i)) e
          ∙ picked (workers i) u)
      ∙ d.empty in
    record {
      released =
          rest.released
          ∙ ap (λ l. release_all l m') (waiting-update_below workers t i (i + 1) n (omega arith))
          ∙ ap (release_all (waiting workers (i + 1) n)) d.released
          ∙ sym (release_all-append (messages (workers i).inbox) (waiting workers (i + 1) n) m);
      empty = λ j p q. elim (ℕ_discrete i j) [
        | yes same ↦ subst (λ k. messages (ended k).inbox ≡ []) same here
        | no ne ↦ rest.empty j (omega arith) (omega arith)
      ];
      others = λ j p. rest.others j (omega arith) ∙ update_ne workers t (omega (arith, p));
    }

-- The components of the first `n` places of `loaded_info`, in order.
pub places : (ℕ → ℕ) → ℕ → ℕ → List ℕ
places comp i zero = []
places comp i (suc n) = comp i ∷ places comp (i + 1) n

places-last :
    (comp : ℕ → ℕ) (i n k : ℕ) (l : List ℕ)
    → k ≡ i + n
    → places comp i (suc n) ++ l ≡ places comp i n ++ comp k ∷ l
unfolding places
places-last comp i zero k l e = ap (λ j. comp j ∷ l) same
  where
    same : i ≡ k
    same = omega (arith, e)
places-last comp i (suc n) k l e =
    ap (◌∷◌ (comp i)) (places-last comp (i + 1) n k l (omega (arith, e)))

module _ (has_stop : ℕ → Bool) (stop_comp : ℕ → Process → Process)
    (keeps : (c : ℕ) (p : Process)
      → ((stop_comp c p).node ≡ p.node) × ((stop_comp c p).closed ≡ p.closed)) where
  stopped_or : ℕ → Process → Process
  stopped_or c p = if has_stop c then stop_comp c p else p

  stopped_or-keeps :
      (c : ℕ) (p : Process)
      → ((stopped_or c p).node ≡ p.node) × ((stopped_or c p).closed ≡ p.closed)
  unfolding stopped_or
  stopped_or-keeps c p = elim (Bool-cases (has_stop c)) [
    | inl has ↦ rw has (keeps c p)
    | inr without ↦ rw without (refl, refl)
  ]

  release_comps-closed :
      (n : ℕ) (p : Process)
      → (release_comps has_stop stop_comp n p).closed
        ≡ places (λ i. (p.node.loaded_info i).comp) 0 n ++ p.closed
  unfolding release_comps places stopped_or
  release_comps-closed zero p = refl
  release_comps-closed (suc i) p =
      let c = (p.node.loaded_info i).comp in
      let (node, closed) = stopped_or-keeps c p in
      release_comps-closed i (record (stopped_or c p) { closed = c ∷ (stopped_or c p).closed })
      ∙ ap₂ (λ (m : Node) l. places (λ k. (m.loaded_info k).comp) 0 i ++ c ∷ l) node closed
      ∙ sym (places-last (λ k. (p.node.loaded_info k).comp) 0 i i p.closed (omega arith))

  -- From the stop of its threads on, the end of a process whose components leave the list of
  -- components alone when they are stopped: it frees every component once, the last one loaded
  -- first; and where the queues are in range after the components are stopped, it releases every
  -- message that still waits at a thread, once, those of the management thread first and then
  -- those of the workers in their order, before the pool goes, and leaves all queues empty.
  pub shutdown_lem :
      (until_joined : Process → Process) (fuel : ℕ) (p : Process)
      → let joined = until_joined (stop_threads p) in
        let s = release_comps has_stop stop_comp joined.node.loaded_count joined in
        InRange s.mgmt.inbox
        → ((j : ℕ) → j < s.node.worker_count → InRange (s.workers j).inbox)
        → let r = shutdown until_joined has_stop stop_comp fuel p in
          let m =
            release_all
              (messages s.mgmt.inbox ++ waiting s.workers 0 s.node.worker_count)
              s.memory in
          (r.closed
            ≡ places (λ i. (joined.node.loaded_info i).comp) 0 joined.node.loaded_count
              ++ joined.closed)
          × (r.memory ≡ record m { pool = deinit_pool m.pool })
          × (messages r.mgmt.inbox ≡ [])
          × ((j : ℕ) → j < s.node.worker_count → messages (r.workers j).inbox ≡ [])
  unfolding shutdown deinit_threads deinit_rest
  shutdown_lem until_joined fuel p mgmt_in workers_in =
      let joined = until_joined (stop_threads p) in
      let s = release_comps has_stop stop_comp joined.node.loaded_count joined in
      let count = s.node.worker_count in
      let (u, e, d) = deinit_thread_lem s.memory s.mgmt mgmt_in in
      let w =
        deinit_workers-IsEnded 0 count (deinit_thread s.memory (some s.mgmt)).0 s.workers
          (λ j p q. workers_in j (omega (arith, q))) in
      let all =
        w.released
        ∙ ap (release_all (waiting s.workers 0 count)) d.released
        ∙ sym (release_all-append (messages s.mgmt.inbox) (waiting s.workers 0 count) s.memory) in
      (
        release_comps-closed joined.node.loaded_count joined,
        ap (λ (m : Memory). record m { pool = deinit_pool m.pool }) all,
        ap (λ (t : Thread). messages t.inbox) (ap (thread_or s.mgmt) e ∙ picked s.mgmt u) ∙ d.empty,
        λ j q. w.empty j (omega arith) (omega (arith, q)),
      )
