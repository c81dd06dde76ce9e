-- ===== src/Node/Drop.antt =====
-- The services that go when a component is unloaded.
use gemini_nos.Base.{
  ℕ, ◌≡◌, refl, ap, ◌∙◌, Bool, false, true, ◌&&◌, ◌||◌, Option, none, ◌==◌, if◌then◌else◌, List, [],
  ◌∷◌, Bool-cases, inl, inr,
}
use gemini_nos.Services.{Entry, Registry, unregister_provider}
use gemini_nos.Services.Lookup.{IsKeyed, looked_up}
use gemini_nos.Services.Register.{unregister_lem}
use gemini_nos.Node.{ServiceDef, drop_services}

-- Whether the manifest says that the component of an id provides a service.
abbrev pub provides : ℕ → List ServiceDef → ℕ → Bool
provides id [] k = false
provides id (svc ∷ svcs) k =
    (svc.provider_comp_id == id && svc.service_id == k) || provides id svcs k

-- A service that is out stays out; the others keep their entries.
pub drop_services_lem :
    (id : ℕ) (svcs : List ServiceDef) (r : Registry)
    → IsKeyed r
    → IsKeyed (drop_services id svcs r)
      × ((k : ℕ)
          → looked_up (drop_services id svcs r) k
            ≡ (if provides id svcs k then none else looked_up r k))
unfolding drop_services
drop_services_lem id [] r v = (v, λ k. refl)
drop_services_lem id (svc ∷ svcs) r v = elim (Bool-cases (svc.provider_comp_id == id)) [
  | inr other ↦ rw (other, drop_services) (drop_services_lem id svcs r v)
  | inl own ↦
      let u = unregister_lem r svc.service_id v in
      let ih = drop_services_lem id svcs (unregister_provider r svc.service_id).1 u.0 in
      rw (own, drop_services)
        (
          ih.0,
          λ k.
              ih.1 k
              ∙ ap (λ o. if provides id svcs k then none else o) (u.1 k)
              ∙ either (svc.service_id == k) (provides id svcs k) (looked_up r k),
        )
]
  where
    either :
        (a b : Bool) (o : Option Entry)
        → (if b then none else if a then none else o) ≡ (if a || b then none else o)
    either true true o = refl
    either true false o = refl
    either false b o = refl
