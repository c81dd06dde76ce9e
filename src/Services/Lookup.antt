-- ===== src/Services/Lookup.antt =====
-- The service registry as a map from service ids to entries.
use gemini_nos.Base.{
  ℕ, ◌+◌, ◌≤◌, ◌<◌, ◌≡◌, ◌≢◌, inl, inr, refl, sym, ap, ◌∙◌, arith, false, Option, Option-cases,
  none, some, leb, ◌==◌, if◌then◌else◌, update, update_self, update_ne, ==_iff, Bool-cases,
  ℕ_discrete,
}
use gemini_nos.Base.Scan.{scan-Found, scan-none, scan_finds, scan_misses}
use gemini_nos.Services.{Entry, Registry, find_entry, slot_for, max_services}

-- No service id stands twice in the registry.
pub record IsKeyed (r : Registry) : Type 0 where
  pub once :
      (i j : ℕ)
      → i < r.count
      → j < r.count
      → (r.entry i).service_id ≡ (r.entry j).service_id
      → i ≡ j
  pub few : r.count ≤ max_services

-- The entry of a service.
unfoldable pub looked_up : Registry → ℕ → Option Entry
looked_up r id = elim (find_entry r id) [ none ↦ none | some i ↦ some (r.entry i) ]

looked_up-find :
    (r : Registry) (id i : ℕ) → find_entry r id ≡ some i → looked_up r id ≡ some (r.entry i)
unfolding looked_up
looked_up-find r id i e = rw (e, looked_up)

module _ {r : Registry} (v : IsKeyed r) where
  find_hit : (id i : ℕ) → i < r.count → (r.entry i).service_id ≡ id → find_entry r id ≡ some i
  unfolding find_entry
  find_hit id i h e =
      scan_finds (λ j. (r.entry j).service_id == id) 0 r.count i (omega arith) (omega arith)
        ((==_iff _ _).1 e) (λ j p q. ground (arith, v.once j i (omega arith) h))

  -- An entry is found under its id.
  pub looked_up_hit :
      (id i : ℕ) → i < r.count → (r.entry i).service_id ≡ id → looked_up r id ≡ some (r.entry i)
  looked_up_hit id i h e = looked_up-find r id i (find_hit id i h e)

-- An id that no entry has is not found.
pub looked_up_miss :
    (r : Registry) (id : ℕ)
    → ((i : ℕ) → i < r.count → (r.entry i).service_id ≢ id)
    → looked_up r id ≡ none
unfolding looked_up find_entry
looked_up_miss r id h = rw (
  scan_misses (λ j. (r.entry j).service_id == id) 0 r.count (λ j p q. ground (arith, h j)),
  looked_up,
)

-- What a search means.
pub data Sought (r : Registry) (id : ℕ) : Type 0 where
  absent :
      find_entry r id ≡ none
      → ((i : ℕ) → i < r.count → (r.entry i).service_id ≢ id)
      → looked_up r id ≡ none
      → Sought r id
  present :
      (i : ℕ)
      → find_entry r id ≡ some i
      → i < r.count
      → (r.entry i).service_id ≡ id
      → looked_up r id ≡ some (r.entry i)
      → Sought r id

pub seek : (r : Registry) (id : ℕ) → Sought r id
unfolding find_entry
seek r id = elim (Option-cases (find_entry r id)) [
  | inl miss ↦
      let out : (i : ℕ) → i < r.count → (r.entry i).service_id ≢ id =
        λ i h e. ground (arith, scan-none (λ j. (r.entry j).service_id == id) 0 r.count i miss) in
      absent miss out (looked_up_miss r id out)
  | inr (i, hit) ↦
      let f = scan-Found (λ j. (r.entry j).service_id == id) 0 r.count i hit in
      present i hit (omega (arith, f.upper)) ((==_iff _ _).0 f.passes) (looked_up-find r id i hit)
]

-- An entry for `id` written at `i`, in a registry of `n` entries.
abbrev pub placed : Registry → ℕ → ℕ → Entry → Registry
placed r i n e = record { entry = update r.entry i e; count = n }

-- The place of the service, or, for a service that has none, the first place that is free.
pub record IsSlot (r : Registry) (id i n : ℕ) : Type 0 where
  pub inside : i < n
  pub others : (j : ℕ) → j < n → i ≢ j → (j < r.count) × ((r.entry j).service_id ≢ id)
  pub mine : i < r.count → (r.entry i).service_id ≡ id
  pub keeps : (j : ℕ) → j < r.count → j < n
  pub few : n ≤ max_services

module _ {r : Registry} (v : IsKeyed r) (id i n : ℕ) (e : Entry) (s : IsSlot r id i n)
    (own : e.service_id ≡ id) where
  id_self : {j : ℕ} → i ≡ j → (update r.entry i e j).service_id ≡ id
  id_self {j} at =
      ap (λ (x : Entry). x.service_id) (ap (update r.entry i e) (sym at) ∙ update_self r.entry i e)
      ∙ own

  id_ne : {j : ℕ} → i ≢ j → (update r.entry i e j).service_id ≡ (r.entry j).service_id
  id_ne ne = ap (λ (x : Entry). x.service_id) (update_ne r.entry e ne)

  placed_once :
      (j k : ℕ)
      → j < n
      → k < n
      → (update r.entry i e j).service_id ≡ (update r.entry i e k).service_id
      → j ≡ k
  placed_once j k p q same = elim (ℕ_discrete i j) [
    | yes a ↦ elim (ℕ_discrete i k) [
      | yes b ↦ sym a ∙ b
      | no b ↦ absurd ((s.others k q b).1 (sym (id_ne b) ∙ sym same ∙ id_self a))
    ]
    | no a ↦ elim (ℕ_discrete i k) [
      | yes b ↦ absurd ((s.others j p a).1 (sym (id_ne a) ∙ same ∙ id_self b))
      | no b ↦ v.once j k (s.others j p a).0 (s.others k q b).0 (sym (id_ne a) ∙ same ∙ id_ne b)
    ]
  ]

  pub placed-IsKeyed : IsKeyed (placed r i n e)
  placed-IsKeyed = record { once = placed_once; few = s.few }

  -- The service is found with its new entry, and every other as before.
  pub looked_up-placed :
      (k : ℕ) → looked_up (placed r i n e) k ≡ (if id == k then some e else looked_up r k)
  looked_up-placed k = elim (ℕ_discrete id k) [
    | yes a ↦
        looked_up_hit placed-IsKeyed k i s.inside (id_self refl ∙ a)
        ∙ rw ((==_iff id k).1 a) (ap some (update_self r.entry i e))
    | no a ↦ rw (apart a) (elsewhere a (seek r k))
  ]
    where
      apart : id ≢ k → (id == k) ≡ false
      apart a = ground arith

      elsewhere : id ≢ k → Sought r k → looked_up (placed r i n e) k ≡ looked_up r k
      elsewhere a (absent _ out found) =
          looked_up_miss (placed r i n e) k (λ j h same. elim (ℕ_discrete i j) [
            | yes b ↦ a (sym (id_self b) ∙ same)
            | no b ↦ out j (s.others j h b).0 (sym (id_ne b) ∙ same)
          ])
          ∙ sym found
      elsewhere a (present j _ h at found) = elim (ℕ_discrete i j) [
        | yes b ↦ absurd (a (sym (s.mine (omega arith)) ∙ ap (λ l. (r.entry l).service_id) b ∙ at))
        | no b ↦
            looked_up_hit placed-IsKeyed k j (s.keeps j h) (id_ne b ∙ at)
            ∙ ap some (update_ne r.entry e b)
            ∙ sym found
      ]

-- The slot that a registration finds.
pub data Slot (r : Registry) (id : ℕ) : Type 0 where
  full : slot_for r id ≡ none → looked_up r id ≡ none → r.count ≡ max_services → Slot r id
  slot : (i n : ℕ) → slot_for r id ≡ some (i, record r { count = n }) → IsSlot r id i n → Slot r id

pub slot_for_lem : {r : Registry} (v : IsKeyed r) (id : ℕ) → Slot r id
unfolding slot_for
slot_for_lem {r} v id = go (seek r id)
  where
    go : Sought r id → Slot r id
    go (present i hit h at found) = slot i r.count (rw (hit, slot_for)) (record {
      inside = h;
      others = λ j p ne. (p, λ same. ne (v.once i j h p (at ∙ sym same)));
      mine = λ _. at;
      keeps = λ j p. p;
      few = v.few;
    })
    go (absent miss out found) = elim (Bool-cases (leb max_services r.count)) [
      | inl full_up ↦ full (rw (miss, full_up, slot_for)) found (ground (arith, v.few))
      | inr room ↦ slot r.count (r.count + 1) (rw (miss, room, slot_for)) (record {
        inside = omega arith;
        others = λ j p ne. let h : j < r.count = omega arith in (h, out j h);
        mine = λ h. absurd (omega arith);
        keeps = λ j p. omega arith;
        few = ground arith;
      })
    ]
