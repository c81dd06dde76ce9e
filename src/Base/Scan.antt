-- ===== src/Base/Scan.antt =====
-- `for (i = from; i < from + rounds; i++) if (test(i)) return i;`, the search that the components
-- make over their tables, with what a hit and a miss mean.
use gemini_nos.Base.Tests.{if◌then◌else◌, Bool-cases}
use Prim.Native.Nat.{ℕ, zero, suc, ◌+◌, ◌≤◌, ◌<◌}
use mathlib.Core.Path.{◌≡◌, refl, sym, ap}
use native.Mathlib.Decide.{dec_lt}
use mathlib.Core.Logic.{inl, inr}
use mathlib.Core.Bool.{Bool, true, false}
use mathlib.Core.Option.{Option, none, some}
use native.Mathlib.Omega.{arith}

unfoldable pub scan : (ℕ → Bool) → ℕ → ℕ → Option ℕ
scan test i zero = none
scan test i (suc n) = if test i then some i else scan test (suc i) n

-- The index found passes the test, and none before it does.
pub record Found (test : ℕ → Bool) (from n k : ℕ) : Type 0 where
  pub lower : from ≤ k
  pub upper : k < from + n
  pub passes : test k ≡ true
  pub first : (j : ℕ) → from ≤ j → j < k → test j ≡ false

pub scan-Found : (test : ℕ → Bool) (i n k : ℕ) → scan test i n ≡ some k → Found test i n k
unfolding scan
scan-Found test i zero k e = absurd (cc)
scan-Found test i (suc n) k e = elim (Bool-cases (test i)) [
  | inl hit ↦
      let here : i ≡ k = ground arith in
      record {
        lower = omega arith;
        upper = omega arith;
        passes = ground arith;
        first = λ j p q. absurd (omega arith);
      }
  | inr miss ↦
      let rest = scan-Found test (suc i) n k (ground arith) in
      record {
        lower = omega arith;
        upper = omega arith;
        passes = rest.passes;
        first = λ j p q. elim (dec_lt i j) [
          | yes above ↦ rest.first j above q
          | no here ↦ let e : i ≡ j = omega arith in rw (← e) miss
        ];
      }
]

pub scan-none :
    (test : ℕ → Bool) (i n j : ℕ) → scan test i n ≡ none → i ≤ j → j < i + n → test j ≡ false
unfolding scan
scan-none test i zero j e p q = absurd (omega arith)
scan-none test i (suc n) j e p q = grind (arith, scan-none test (suc i) n j)

-- The first index that passes is the one found.
pub scan_finds :
    (test : ℕ → Bool) (i n k : ℕ)
    → i ≤ k
    → k < i + n
    → test k ≡ true
    → ((j : ℕ) → i ≤ j → j < k → test j ≡ false)
    → scan test i n ≡ some k
unfolding scan
scan_finds test i zero k p q t f = absurd (omega arith)
scan_finds test i (suc n) k p q t f = elim (dec_lt i k) [
  | yes above ↦
      rw (f i (omega arith) above)
        (scan_finds test (suc i) n k above (omega arith) t (λ j a b. f j (omega arith) b))
  | no here ↦ let e : k ≡ i = omega arith in rw (rw e at t) (ap some (sym e))
]

-- No index that passes: the search misses.
pub scan_misses :
    (test : ℕ → Bool) (i n : ℕ)
    → ((j : ℕ) → i ≤ j → j < i + n → test j ≡ false)
    → scan test i n ≡ none
unfolding scan
scan_misses test i zero f = refl
scan_misses test i (suc n) f =
    rw (f i (omega arith) (omega arith))
      (scan_misses test (suc i) n (λ j a b. f j (omega arith) (omega arith)))
