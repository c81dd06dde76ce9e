-- ===== src/Services/Routes.antt =====
-- What a registration does to the routes of all services.
use gemini_nos.Base.{
  ℕ, ◌+◌, ◌≤◌, ◌<◌, ◌≡◌, inl, inr, refl, ap, ◌∙◌, arith, Bool, true, false, Option, Option-cases,
  none, some, leb, ◌==◌, if◌then◌else◌, update, update_self, update_ne, Bool-cases, nos_ok, dec_lt,
}
use gemini_nos.Base.Scan.{scan, scan-Found, scan-none, scan_finds, scan_misses}
use gemini_nos.Services.{Embedded, embedded_register, embedded_get}

-- The first of two results that there is.
pub or_else : Option ℕ → Option ℕ → Option ℕ
or_else none y = y
or_else (some x) y = some x

module _ {test test' : ℕ → Bool} (n : ℕ) (same : (j : ℕ) → j < n → test' j ≡ test j) where
  -- A search over one place more finds what the shorter one found.
  scan_kept : (i : ℕ) → scan test 0 n ≡ some i → scan test' 0 (n + 1) ≡ some i
  scan_kept i hit =
      let f = scan-Found test 0 n i hit in
      scan_finds test' 0 (n + 1) i f.lower (omega (arith, f.upper))
        (same i (omega (arith, f.upper)) ∙ f.passes)
        (λ j p q. same j (omega (arith, f.upper)) ∙ f.first j p q)

  -- Where that found nothing, the last place decides.
  scan_last : scan test 0 n ≡ none → scan test' 0 (n + 1) ≡ (if test' n then some n else none)
  scan_last miss = elim (Bool-cases (test' n)) [
    | inl hit ↦ rw hit (scan_finds test' 0 (n + 1) n (omega arith) (omega arith) hit before)
    | inr fails ↦ rw fails (
        scan_misses test' 0 (n + 1) (λ j p q. elim (dec_lt j n) [
          | yes r ↦ before j p r
          | no r ↦ let e : j ≡ n = omega arith in ap test' e ∙ fails
        ]))
  ]
    where
      before : (j : ℕ) → 0 ≤ j → j < n → test' j ≡ false
      before j p q = same j q ∙ scan-none test 0 n j miss p (omega arith)

embedded_get-scan :
    (r : Embedded) (k : ℕ) (o : Option ℕ)
    → scan (λ i. r.service_name i == k) 0 r.count ≡ o
    → embedded_get r k ≡ elim o as (λ _. Option ℕ) [ none ↦ none | some i ↦ some (r.ops i) ]
unfolding embedded_get
embedded_get-scan r k o e = rw (e, embedded_get)

-- Looking an embedded service up after a registration that succeeds: a name that was known keeps the
-- table of functions that it had, a new name gets the new table, and every other name is as before.
pub get-register :
    (r : Embedded) (name ops k : ℕ)
    → r.count < 32
    → ((embedded_register r name ops).0 ≡ nos_ok)
      × (embedded_get (embedded_register r name ops).1 k
          ≡ or_else (embedded_get r k) (if name == k then some ops else none))
unfolding embedded_register or_else
get-register r name ops k room = rw (has_room, embedded_register) (refl, looked_up)
  where
    has_room : leb 32 r.count ≡ false
    has_room = ground arith

    grown : Embedded
    grown = record {
      service_name = update r.service_name r.count name;
      ops = update r.ops r.count ops;
      count = r.count + 1;
    }

    at_end : (grown.service_name r.count == k) ≡ (name == k)
    at_end = ap (λ m. m == k) (update_self r.service_name r.count name)

    before : (j : ℕ) → j < r.count → (grown.service_name j == k) ≡ (r.service_name j == k)
    before j p = ap (λ m. m == k) (update_ne r.service_name name (omega arith))

    looked_up :
        embedded_get grown k ≡ or_else (embedded_get r k) (if name == k then some ops else none)
    looked_up = elim (Option-cases (scan (λ i. r.service_name i == k) 0 r.count)) [
      | inr (i, hit) ↦
          embedded_get-scan grown k (some i) (scan_kept r.count before i hit)
          ∙ rw (embedded_get-scan r k (some i) hit)
              (ap some (update_ne r.ops ops (omega (arith, (scan-Found _ 0 r.count i hit).upper))))
      | inl miss ↦
          embedded_get-scan grown k _ (scan_last r.count before miss)
          ∙ rw (embedded_get-scan r k none miss, at_end) (new (name == k))
    ]
      where
        new :
            (b : Bool)
            → (elim (if b then some r.count else none) as (λ _. Option ℕ) [
              | none ↦ none
              | some i ↦ some (grown.ops i)
            ])
              ≡ (if b then some ops else none)
        new true = ap some (update_self r.ops r.count ops)
        new false = refl
