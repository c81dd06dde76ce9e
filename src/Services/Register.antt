-- ===== src/Services/Register.antt =====
-- What registrations and unregistrations do to the routes of all services.
use gemini_nos.Base.{
  strncpy, ℕ, ◌-◌, ◌<◌, ◌≡◌, ◌≢◌, ◌⊎◌, inl, inr, refl, sym, ap, ◌∙◌, arith, true, false, Option,
  Option-cases, none, some, ◌==◌, if◌then◌else◌, update, ==_iff, Bool-cases, Status, nos_ok,
  nos_err, ℕ_discrete,
}
use gemini_nos.Services.{
  Entry, Registry, find_entry, register_provider_bind, register_remote_ex, unregister_provider,
  Route, to_thread, by_shm, by_uds, no_route, route, max_services,
}
use gemini_nos.Services.Lookup.{
  IsKeyed, looked_up, looked_up_hit, looked_up_miss, Sought, absent, present, seek, placed,
  placed-IsKeyed, looked_up-placed, Slot, full, slot, slot_for_lem,
}

-- The route that an entry stands for.
abbrev routed : Option Entry → ℕ → Route
routed none flags = no_route
routed (some e) flags =
    if e.is_remote
    then (if flags == 1
        then by_shm e.remote_node_name e.remote_uds_path
        else by_uds e.remote_node_name e.remote_uds_path)
    else to_thread e.local_thread

pub route-eq-routed :
    (r : Registry) (id flags : ℕ) → route r id flags ≡ routed (looked_up r id) flags
unfolding route looked_up
route-eq-routed r id flags = elim (Option-cases (find_entry r id)) [
  | inl miss ↦ rw (miss, route, looked_up) refl
  | inr (i, hit) ↦ rw (hit, route, looked_up) refl
]

-- A registry that is full refuses a service that it does not know, and stays as it is.
abbrev pub Refused : Registry → ℕ → Status × Registry → Type 0
Refused r id out = (out ≡ (nos_err, r)) × (looked_up r id ≡ none) × (r.count ≡ max_services)

-- What happens to the routes when that of `id` becomes `to`.
abbrev pub Rerouted : Registry → ℕ → (ℕ → Route) → Status × Registry → Type 0
Rerouted r id to out =
    (out.0 ≡ nos_ok)
    × ((k flags : ℕ) → route out.1 k flags ≡ (if id == k then to flags else route r k flags))

rerouted :
    (r r' : Registry) (id : ℕ) (e : Entry) (to : ℕ → Route)
    → ((k : ℕ) → looked_up r' k ≡ (if id == k then some e else looked_up r k))
    → ((flags : ℕ) → routed (some e) flags ≡ to flags)
    → (k flags : ℕ) → route r' k flags ≡ (if id == k then to flags else route r k flags)
rerouted r r' id e to found goes k flags =
    route-eq-routed r' k flags ∙ ap (λ o. routed o flags) (found k) ∙ elim (Bool-cases (id == k)) [
      | inl own ↦ rw own (goes flags)
      | inr other ↦ rw other (sym (route-eq-routed r k flags))
    ]

-- In a registry where no service id stands twice, `nos_service_register_provider_bind` routes the
-- service to the thread of its provider, and every other service as before; or the registry is full
-- and does not know the service, and stays as it is. No id stands twice afterwards.
pub bind_routes :
    (r : Registry) (id provider thread : ℕ)
    → IsKeyed r
    → let out = register_provider_bind r id provider thread in
      IsKeyed out.1 × (Refused r id out ⊎ Rerouted r id (λ flags. to_thread thread) out)
unfolding register_provider_bind
bind_routes r id provider thread v = go (slot_for_lem v id)
  where
    go :
        Slot r id
        → let out = register_provider_bind r id provider thread in
          IsKeyed out.1 × (Refused r id out ⊎ Rerouted r id (λ flags. to_thread thread) out)
    go (full miss out at) = rw (miss, register_provider_bind) (v, inl (refl, out, at))
    go (slot i n hit s) =
        rw (hit, register_provider_bind)
          (
            placed-IsKeyed v id i n e s refl,
            inr (
              refl,
              rerouted r (placed r i n e) id e _ (looked_up-placed v id i n e s refl)
                  (λ flags. refl),
            ),
          )
      where
        e : Entry
        e = record (r.entry i) {
          service_id = id;
          local_provider = provider;
          local_thread = thread;
          is_remote = false;
        }

-- Likewise `nos_service_register_remote_ex`, given a name and a path, routes the service to the node
-- by the first 31 bytes of the name and 107 of the path:
-- through the shared segment for a buffer that lies there, and else through the socket.
pub remote_routes :
    (r : Registry) (id node path : ℕ)
    → IsKeyed r
    → node ≢ 0
    → path ≢ 0
    → let out = register_remote_ex r id node path in
      IsKeyed out.1
      × (Refused r id out
          ⊎ Rerouted r id
              (λ flags.
                if flags == 1
                then by_shm (strncpy 31 node) (strncpy 107 path)
                else by_uds (strncpy 31 node) (strncpy 107 path))
              out)
unfolding register_remote_ex
remote_routes r id node path v named placed_at = go (slot_for_lem v id)
  where
    go :
        Slot r id
        → let out = register_remote_ex r id node path in
          IsKeyed out.1
          × (Refused r id out
              ⊎ Rerouted r id
                  (λ flags.
                    if flags == 1
                    then by_shm (strncpy 31 node) (strncpy 107 path)
                    else by_uds (strncpy 31 node) (strncpy 107 path))
                  out)
    go (full miss out at) = rw (miss, register_remote_ex) (v, inl (refl, out, at))
    go (slot i n hit s) =
        rw (hit, register_remote_ex)
          (
            placed-IsKeyed v id i n e s refl,
            inr (
              refl,
              rerouted r (placed r i n e) id e _ (looked_up-placed v id i n e s refl)
                  (λ flags. ground arith),
            ),
          )
      where
        e : Entry
        e = record (r.entry i) {
          service_id = id;
          is_remote = true;
          remote_node_name = if node == 0 then (r.entry i).remote_node_name else strncpy 31 node;
          remote_uds_path = if path == 0 then (r.entry i).remote_uds_path else strncpy 107 path;
        }

-- The registry without entry `i`, whose place the last one takes.
module _ {r : Registry} (v : IsKeyed r) (i : ℕ) (h : i < r.count) where
  without : Registry
  without = record { entry = update r.entry i (r.entry (r.count - 1)); count = r.count - 1 }

  -- Where the entry at a place came from.
  abbrev source : ℕ → ℕ
  source j = if i == j then r.count - 1 else j

  entry-source : (j : ℕ) → update r.entry i (r.entry (r.count - 1)) j ≡ r.entry (source j)
  entry-source j = elim (Bool-cases (i == j)) [ inl own ↦ rw own | inr other ↦ rw other ]

  id-source :
      (j : ℕ)
      → (update r.entry i (r.entry (r.count - 1)) j).service_id ≡ (r.entry (source j)).service_id
  id-source j = ap (λ (x : Entry). x.service_id) (entry-source j)

  without-IsKeyed : IsKeyed without
  unfolding without
  without-IsKeyed = record {
    once = λ j k p q same.
        let e =
          v.once (source j) (source k) (ground arith) (ground arith)
            (sym (id-source j) ∙ same ∙ id-source k) in
        ground arith;
    few = omega (arith, v.few);
  }

  looked_up-without :
      (k : ℕ) → looked_up without k ≡ (if (r.entry i).service_id == k then none else looked_up r k)
  unfolding without
  looked_up-without k = go (seek r k)
    where
      go :
          Sought r k
          → looked_up without k ≡ (if (r.entry i).service_id == k then none else looked_up r k)
      go (absent _ out found) =
          looked_up_miss without k
            (λ j p same. out (source j) (ground arith) (sym (id-source j) ∙ same))
          ∙ rw found (ground arith)
      go (present j _ p at found) = elim (ℕ_discrete i j) [
        | yes e ↦
            let own : (r.entry i).service_id ≡ k = ap (λ l. (r.entry l).service_id) e ∙ at in
            looked_up_miss without k (λ l q same.
              let f = v.once (source l) i (ground arith) h (sym (id-source l) ∙ same ∙ sym own) in
              ground arith)
            ∙ rw ((==_iff _ _).1 own)
        | no ne ↦
            let w : ℕ = if j == r.count - 1 then i else j in
            let back : source w ≡ j = ground arith in
            looked_up_hit without-IsKeyed k w (ground arith)
              (id-source w ∙ ap (λ l. (r.entry l).service_id) back ∙ at)
            ∙ ap some (entry-source w ∙ ap r.entry back)
            ∙ sym found
            ∙ rw (other (λ same. ne (v.once i j h p (same ∙ sym at))))
      ]
        where
          other : (r.entry i).service_id ≢ k → ((r.entry i).service_id == k) ≡ false
          other ne = ground arith

-- In a registry where no service id stands twice, `nos_service_unregister_provider` takes the service
-- out, and leaves every other with its entry and no id twice. It reports an error exactly when the
-- service was not there.
pub unregister_lem :
    (r : Registry) (id : ℕ)
    → IsKeyed r
    → let out = unregister_provider r id in
      IsKeyed out.1
      × ((k : ℕ) → looked_up out.1 k ≡ (if id == k then none else looked_up r k))
      × ((out.0 ≡ nos_err) × (looked_up r id ≡ none) ⊎ (out.0 ≡ nos_ok) × (looked_up r id ≢ none))
unfolding unregister_provider without
unregister_lem r id v = go (seek r id)
  where
    go :
        Sought r id
        → let out = unregister_provider r id in
          IsKeyed out.1
          × ((k : ℕ) → looked_up out.1 k ≡ (if id == k then none else looked_up r k))
          × ((out.0 ≡ nos_err) × (looked_up r id ≡ none)
              ⊎ (out.0 ≡ nos_ok) × (looked_up r id ≢ none))
    go (absent miss _ found) = rw (miss, unregister_provider) (v, unchanged, inl (refl, found))
      where
        unchanged : (k : ℕ) → looked_up r k ≡ (if id == k then none else looked_up r k)
        unchanged k = elim (Bool-cases (id == k)) [
          | inl own ↦ rw own (ap (looked_up r) (sym ((==_iff id k).0 own)) ∙ found)
          | inr other ↦ rw other
        ]
    go (present i hit h at found) =
        rw (hit, unregister_provider)
          (
            without-IsKeyed v i h,
            λ k. looked_up-without v i h k ∙ ap (λ l. if l == k then none else looked_up r k) at,
            inr (refl, λ e. absurd (cc)),
          )
