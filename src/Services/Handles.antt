-- ===== src/Services/Handles.antt =====
-- How a component comes to the functions of the timer and the store: the services that are
-- embedded in the node (src/infra/timer/nos_timer.c, src/infra/db/nos_kv.c) and the handles that
-- include/nos_api.h keeps.
use gemini_nos.Base.{
  ℕ, ◌+◌, ◌<◌, ◌≡◌, ◌≢◌, refl, sym, ap, ◌∙◌, arith, Bool, true, false, Option, none, some, leb,
  ◌==◌, update, update_ne, List, [], ◌∷◌, Option-cases, Bool-cases, inl, inr,
}
use gemini_nos.Base.Scan.{scan, Found, scan-Found, scan_finds}
use gemini_nos.Services.{Embedded, max_embedded_services, embedded_register, embedded_get}

-- `nos_timer_init`, with its `initialized`. The name "SVC_TIMER" and the table of functions are
-- numbers.
pub timer_init : ℕ → ℕ → Bool × Embedded → Bool × Embedded
unfolding embedded_register
timer_init name ops (true, r) = (true, r)
timer_init name ops (false, r) = (true, (embedded_register r name ops).1)

-- `nos_kv_db_init`
pub kv_db_init : ℕ → ℕ → Embedded → Embedded
unfolding embedded_register
kv_db_init name ops r = (embedded_register r name ops).1

-- `_nos_get_timer_ops` and `_nos_get_kv_ops`, for the service called `name`: the handle, and the
-- `cache` after the call. `none` is `NULL`.
pub get_ops : Embedded → Option ℕ → ℕ → Option ℕ × Option ℕ
unfolding embedded_get
get_ops r (some ops) name = (some ops, some ops)
get_ops r none name = let ops = embedded_get r name in (ops, ops)

-- Registrations, one after the other
pub register_all : List (ℕ × ℕ) → Embedded → Embedded
unfolding embedded_register
register_all [] r = r
register_all ((name, ops) ∷ rest) r = register_all rest (embedded_register r name ops).1

-- An entry behind the others does not change what is found.
same_place :
    (r : Embedded) (name name' i : ℕ)
    → Found (λ j. r.service_name j == name) 0 r.count i
    → scan (λ j. update r.service_name r.count name' j == name) 0 (r.count + 1) ≡ some i
same_place r name name' i f =
    scan_finds (λ j. update r.service_name r.count name' j == name) 0 (r.count + 1) i (omega arith)
      (omega (arith, f.upper)) (kept i f.upper ∙ f.passes)
      (λ j p q. kept j (omega (arith, q, f.upper)) ∙ f.first j p q)
  where
    kept :
        (j : ℕ)
        → j < 0 + r.count
        → (update r.service_name r.count name' j == name) ≡ (r.service_name j == name)
    kept j h = ap (λ n. n == name) (update_ne r.service_name name' (omega (arith, h)))

abbrev grown : Embedded → ℕ → ℕ → Embedded
grown r name ops = record {
  service_name = update r.service_name r.count name;
  ops = update r.ops r.count ops;
  count = r.count + 1;
}

grown-keeps :
    (r : Embedded) (name ops name' ops' : ℕ)
    → embedded_get r name ≡ some ops
    → embedded_get (grown r name' ops') name ≡ some ops
unfolding embedded_get
grown-keeps r name ops name' ops' e =
    elim (Option-cases (scan (λ i. r.service_name i == name) 0 r.count)) [
      | inl miss ↦ absurd (ground (arith, e, miss))
      | inr (i, hit) ↦
          let f = scan-Found (λ j. r.service_name j == name) 0 r.count i hit in
          let apart : r.count ≢ i = omega (arith, f.upper) in
          rw (same_place r name name' i f, embedded_get)
            (ap some (update_ne r.ops ops' apart) ∙ ground (arith, e, hit))
    ]

-- A service that is registered keeps its table when another registers, under whatever name.
register-keeps :
    (r : Embedded) (name ops name' ops' : ℕ)
    → embedded_get r name ≡ some ops
    → embedded_get (embedded_register r name' ops').1 name ≡ some ops
unfolding embedded_register
register-keeps r name ops name' ops' e = elim (Bool-cases (leb max_embedded_services r.count)) [
  | inl full ↦ rw full e
  | inr room ↦ rw room (grown-keeps r name ops name' ops' e)
]

register_all-keeps :
    (rest : List (ℕ × ℕ)) (r : Embedded) (name ops : ℕ)
    → embedded_get r name ≡ some ops
    → embedded_get (register_all rest r) name ≡ some ops
unfolding register_all
register_all-keeps [] r name ops e = e
register_all-keeps ((name', ops') ∷ rest) r name ops e =
    register_all-keeps rest _ name ops (register-keeps r name ops name' ops' e)

-- A handle that was asked for at one time and is asked for again after any registrations is the
-- one that a search of the registry gives then, whether the first search found it or not.
pub get_ops_lem :
    (r : Embedded) (rest : List (ℕ × ℕ)) (name : ℕ)
    → let r' = register_all rest r in
      (get_ops r' (get_ops r none name).1 name).0 ≡ embedded_get r' name
unfolding get_ops
get_ops_lem r rest name = elim (Option-cases (embedded_get r name)) [
  | inl miss ↦ rw miss refl
  | inr (ops, hit) ↦ rw hit (sym (register_all-keeps rest r name ops hit))
]
