-- ===== src/Mpsc/Attach/Found.antt =====
-- A node that has attached is found by the others.
use gemini_nos.Base.{
  strncpy_short, ◌^◌, ℕ, zero, suc, ◌+◌, ◌≤◌, ◌<◌, ◌≡◌, ◌≢◌, ◌⊎◌, inl, inr, refl, ap, arith, Bool,
  true, false, not, ◌&&◌, ◌||◌, none, some, ◌==◌, ==_iff, update, Option-cases, Bool-cases,
  ℕ_discrete, nos_ok, nos_err,
}
use gemini_nos.Base.Scan.{scan, Found, scan-Found, scan-none, scan_finds}
use gemini_nos.Mpsc.{Nodes, register_node, get_remote_queue, max_nodes}
use gemini_nos.Mpsc.Attach.{
  Attachment, map_failed, mapped, get_local_queue, shm_magic, await_magic, shm_init,
}

-- The magic number is among the readings.
pub record IsSeen (reading : ℕ → ℕ) (k n : ℕ) : Type 0 where
  pub at : ℕ
  pub lower : k ≤ at
  pub upper : at < k + n
  pub seen : reading at ≡ shm_magic

await_magic-true : (reading : ℕ → ℕ) (k n : ℕ) → await_magic reading k n ≡ true → IsSeen reading k n
unfolding await_magic
await_magic-true reading k zero e = absurd (ground (arith, e))
await_magic-true reading k (suc n) e = elim (Bool-cases (reading k == shm_magic)) [
  | inl hit ↦ record { at = k; lower = omega arith; upper = omega arith; seen = (==_iff _ _).0 hit }
  | inr miss ↦
      let rest = await_magic-true reading (suc k) n (ground (arith, e, miss)) in
      record {
        at = rest.at;
        lower = omega (arith, rest.lower);
        upper = omega (arith, rest.upper);
        seen = rest.seen;
      }
]

await_magic-false :
    (reading : ℕ → ℕ) (k n : ℕ)
    → await_magic reading k n ≡ false
    → (j : ℕ) → k ≤ j
    → j < k + n
    → reading j ≢ shm_magic
unfolding await_magic
await_magic-false reading k zero e j p q = absurd (omega arith)
await_magic-false reading k (suc n) e j p q = elim (Bool-cases (reading k == shm_magic)) [
  | inl hit ↦ absurd (ground (arith, e, hit))
  | inr miss ↦ elim (ℕ_discrete k j) [
    | yes same ↦ ground (arith, miss, ap reading same)
    | no ne ↦
        await_magic-false reading (suc k) n (ground (arith, e, miss)) j (omega arith) (omega arith)
  ]
]

scan-ext :
    (P Q : ℕ → Bool) (i n : ℕ) → ((j : ℕ) → i ≤ j → j < i + n → P j ≡ Q j) → scan P i n ≡ scan Q i n
unfolding scan
scan-ext P Q i zero e = refl
scan-ext P Q i (suc n) e = ground (
  arith,
  e i (omega arith) (omega arith),
  scan-ext P Q (suc i) n (λ j p q. e j (omega arith) (omega arith)),
)

-- The node is found in slot `i`, and any other where it was.
pub record IsPlaced (r : Nodes) (name i : ℕ) (r' : Nodes) : Type 0 where
  pub inside : i < max_nodes
  pub found : get_remote_queue r' name ≡ some i
  pub others : (k : ℕ) → k ≢ name → get_remote_queue r' k ≡ get_remote_queue r k

-- Every slot belongs to another node.
abbrev pub IsFull : Nodes → ℕ → Type 0
IsFull r name = (i : ℕ) → i < max_nodes → (r.in_use i ≡ true) × (r.node_name i ≢ name)

module _ (r : Nodes) (name : ℕ) (short : name < 2 ^ 248) where
  fits : ℕ → Bool
  fits i = not (r.in_use i) || (r.node_name i == name)

  abbrev taken : ℕ → Nodes
  taken i = record {
    in_use = update r.in_use i true;
    node_name = update r.node_name i name;
    rx_queue = update r.rx_queue i (record (r.rx_queue i) { head = 0; tail = 0 });
  }

  module _ (i : ℕ) (f : Found fits 0 max_nodes i) where
    again-IsPlaced : r.in_use i ≡ true → IsPlaced r name i r
    unfolding fits get_remote_queue
    again-IsPlaced used = record {
      inside = omega (arith, f.upper);
      found =
          scan_finds (λ j. r.in_use j && (r.node_name j == name)) 0 max_nodes i (omega arith)
            f.upper (ground (arith, used, f.passes)) (λ j p q. ground (arith, f.first j p q));
      others = λ k ne. refl;
    }

    taken-IsPlaced : r.in_use i ≡ false → IsPlaced r name i (taken i)
    unfolding fits get_remote_queue
    taken-IsPlaced free = record {
      inside = omega (arith, f.upper);
      found =
          scan_finds (λ j. (taken i).in_use j && ((taken i).node_name j == name)) 0 max_nodes i
            (omega arith) f.upper (ground arith) (λ j p q. ground (arith, f.first j p q, q));
      others = λ k ne.
          scan-ext (λ j. (taken i).in_use j && ((taken i).node_name j == k))
            (λ j. r.in_use j && (r.node_name j == k)) 0 max_nodes
            (λ j p q. ground (arith, free, ne));
    }

  registered :
      ((register_node r name ≡ none) × IsFull r name)
      ⊎ ((i : ℕ) × (r' : Nodes) × (register_node r name ≡ some (i, r')) × IsPlaced r name i r')
  unfolding register_node fits
  registered = elim (Option-cases (scan fits 0 max_nodes)) [
    | inl miss ↦ inl (
      rw (miss, register_node) refl,
      λ i p.
          let away = scan-none fits 0 max_nodes i miss (omega arith) (omega (arith, p)) in
          (ground (arith, away), ground (arith, away)),
    )
    | inr (i, hit) ↦
        let f = scan-Found fits 0 max_nodes i hit in
        elim (Bool-cases (r.in_use i)) [
          | inl used ↦ inr (i, r, rw (hit, used, register_node) refl, again-IsPlaced i f used)
          | inr free ↦ inr (
            i,
            taken i,
            rw (hit, free, strncpy_short 31 name short, register_node) refl,
            taken-IsPlaced i f free,
          )
        ]
  ]

-- Why a node does not attach, and what it then keeps of the segment: nothing, the failed mapping, or
-- the mapping that succeeded.
pub data Refusal (opens maps : Bool) (reading : ℕ → ℕ) (name : ℕ) (r : Nodes) (a : Attachment)
    : Attachment → Type 0 where
  no_segment : opens ≡ false → Refusal opens maps reading name r a a
  no_mapping :
      opens ≡ true
      → maps ≡ false
      → Refusal opens maps reading name r a (record a { base = map_failed })
  timed_out :
      ((k : ℕ) → k < 51 → reading k ≢ shm_magic)
      → Refusal opens maps reading name r a (record a { base = mapped; header_set = true })
  full :
      IsFull r name
      → Refusal opens maps reading name r a (record a { base = mapped; header_set = true })

-- `nos_shm_init` of a process that has no queue yet, on a node whose name has at most 31 bytes. It
-- succeeds, having read the magic number within 51 readings, with the segment mapped and the queue
-- under which the other nodes find this one from then on, and they find every other node as before.
-- Or it fails, with no queue and the registry as it was: there is no segment, and nothing changes; or
-- the segment cannot be mapped, which is kept in `g_shm_base`; or the magic number was not among 51
-- readings, or all 16 slots belong to other nodes, and the segment stays mapped.
pub shm_init_lem :
    (opens maps : Bool) (reading : ℕ → ℕ) (name : ℕ) (r : Nodes) (a : Attachment)
    → name < 2 ^ 248
    → get_local_queue a ≡ none
    → let out = shm_init opens maps reading name a r in
      ((a' : Attachment) × (out ≡ (nos_err, a', r))
        × (get_local_queue a' ≡ none)
        × Refusal opens maps reading name r a a')
      ⊎ ((i : ℕ) × (r' : Nodes) × (out
            ≡ (nos_ok, record a { base = mapped; header_set = true; local_queue_idx = some i }, r'))
          × IsSeen reading 0 51
          × IsPlaced r name i r')
unfolding shm_init
shm_init_lem false maps reading name r a short idle = inl (a, refl, idle, no_segment refl)
shm_init_lem true false reading name r a short idle =
    inl (record a { base = map_failed }, refl, idle, no_mapping refl refl)
shm_init_lem true true reading name r a short idle = elim (Bool-cases (await_magic reading 0 51)) [
  | inr late ↦ inl (
    kept,
    rw (late, shm_init) refl,
    idle,
    timed_out (λ k p. await_magic-false reading 0 51 late k (omega arith) (omega (arith, p))),
  )
  | inl seen ↦ elim (registered r name short) [
    | inl (none_left, all) ↦ inl (
      kept,
      rw (seen, none_left, idle, shm_init)
          (ap (λ l. (nos_err, record { base = mapped; header_set = true; local_queue_idx = l }, r))
            idle),
      idle,
      full all,
    )
    | inr (i, r', e, placed) ↦
        inr (i, r', rw (seen, e, shm_init) refl, await_magic-true reading 0 51 seen, placed)
  ]
]
  where
    kept : Attachment
    kept = record a { base = mapped; header_set = true }
