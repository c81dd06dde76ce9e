-- ===== src/Base/Arrays.antt =====
-- C arrays as functions of the index: a read is a call and a write is `update`.
-- That every index used is in range is an invariant of the component that owns the array.
-- Lists under native indices stand beside them, for the abstract views.
use Prim.Native.Nat.{ℕ, zero, suc, ◌+◌, ◌<◌}
use mathlib.Core.Path.{◌≡◌, refl, sym, ap, ap₂, ◌∙◌, subst, fun_ext}
use mathlib.Core.Logic.{◌≢◌, inl, inr}
use native.Mathlib.Decide.{ℕ_discrete}
use mathlib.Core.List.{List, [], ◌∷◌, ◌++◌}
use native.Mathlib.Omega.{arith}
use gemini_nos.Base.Tests.{◌==◌, if◌then◌else◌, ==_iff, Bool-cases}

module _ {ℓ} {A : Type ℓ} where
  -- `a[i] = v`
  abbrev pub update : (ℕ → A) → ℕ → A → ℕ → A
  update a i v j = if i == j then v else a j

  abbrev pub length : List A → ℕ
  length [] = 0
  length (x ∷ xs) = suc (length xs)

  pub length-append : (xs ys : List A) → length (xs ++ ys) ≡ length xs + length ys
  length-append [] ys = omega arith
  length-append (x ∷ xs) ys = omega (arith, length-append xs ys)

-- How often a number stands in a list.
abbrev pub count : ℕ → List ℕ → ℕ
count a [] = 0
count a (x ∷ xs) = (if x == a then 1 else 0) + count a xs

module _ {ℓ} {A : Type ℓ} (a : ℕ → A) where
  pub update_self : (i : ℕ) (v : A) → update a i v i ≡ v
  update_self i v = rw ((==_iff i i).1 refl)

  pub update_ne : {i j : ℕ} (v : A) → i ≢ j → update a i v j ≡ a j
  update_ne {i} {j} v ne = elim (Bool-cases (i == j)) [
    | inl hit ↦ absurd (ne ((==_iff i j).0 hit))
    | inr miss ↦ rw miss
  ]

  -- What holds of the value written at its index, and of the others at theirs, holds throughout.
  pub update_ind {κ} :
      (P : ℕ → A → Type κ) (i j : ℕ) (v : A) → P i v → (i ≢ j → P j (a j)) → P j (update a i v j)
  update_ind P i j v hit miss = elim (ℕ_discrete i j) [
    | yes e ↦ subst (λ k. P k (update a i v k)) e (rw (update_self i v) hit)
    | no ne ↦ rw (update_ne v ne) (miss ne)
  ]

  pub update-update : (i : ℕ) (v w : A) → update (update a i v) i w ≡ update a i w
  update-update i v w =
      fun_ext λ j. elim (Bool-cases (i == j)) [ inl hit ↦ rw hit | inr miss ↦ rw miss ]

module _ {ℓ} {A : Type ℓ} where
  -- The `n` entries of an array from index `i` on.
  abbrev pub entries_from : (ℕ → A) → ℕ → ℕ → List A
  entries_from a i zero = []
  entries_from a i (suc n) = a i ∷ entries_from a (suc i) n

  pub entries_from-append :
      (a : ℕ → A) (i m n : ℕ)
      → entries_from a i (m + n) ≡ entries_from a i m ++ entries_from a (i + m) n
  entries_from-append a i zero n =
      let e : i + 0 ≡ i = omega arith in let f : 0 + n ≡ n = omega arith in rw (e, f)
  entries_from-append a i (suc m) n =
      let e : suc m + n ≡ suc (m + n) = omega arith in
      let f : i + suc m ≡ suc i + m = omega arith in
      rw (e, f) (ap (◌∷◌ (a i)) (entries_from-append a (suc i) m n))

  -- Arrays that agree on a range, up to a shift.
  pub entries_from-eq :
      (a b : ℕ → A) (i k n : ℕ)
      → ((j : ℕ) → j < n → a (i + j) ≡ b (k + j))
      → entries_from a i n ≡ entries_from b k n
  entries_from-eq a b i k zero h = refl
  entries_from-eq a b i k (suc n) h =
      let e : i + 0 ≡ i = omega arith in
      let f : k + 0 ≡ k = omega arith in
      ap₂ ◌∷◌ (ap a (sym e) ∙ h 0 (omega arith) ∙ ap b f) (
        entries_from-eq a b (suc i) (suc k) n (λ j p.
          let g : i + suc j ≡ suc i + j = omega arith in
          let l : k + suc j ≡ suc k + j = omega arith in
          ap a (sym g) ∙ h (suc j) (omega arith) ∙ ap b l))

-- A number in two lists that stand one behind the other.
pub count-append :
    (k : ℕ) (front back : List ℕ) → count k (front ++ back) ≡ count k front + count k back
count-append k [] back = omega arith
count-append k (j ∷ front) back = omega (arith, count-append k front back)
