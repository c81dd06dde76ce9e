-- ===== src/Kv/Chain.antt =====
-- The chains of a table as lists of indices, and the walk along one.
use gemini_nos.Base.{
  ℕ, zero, suc, ◌<◌, ◌≡◌, ◌≢◌, inl, inr, refl, sym, ap, ap₂, subst, arith, true, false, Option,
  none, some, ◌==◌, if◌then◌else◌, update, update_ne, update_ind, List, [], ◌∷◌, length, count,
  Bool-cases, ==_iff,
}
use gemini_nos.Kv.{Entry, invalid_idx, same_key, walk}

pub same_key_self : (k : List ℕ) → same_key k k ≡ true
unfolding same_key
same_key_self [] = refl
same_key_self (x ∷ xs) = rw ((==_iff x x).1 refl) (same_key_self xs)

pub same_key-eq : (j k : List ℕ) → same_key j k ≡ true → j ≡ k
unfolding same_key
same_key-eq [] [] h = refl
same_key-eq [] (y ∷ ys) h = cc
same_key-eq (x ∷ xs) [] h = cc
same_key-eq (x ∷ xs) (y ∷ ys) h = ap₂ ◌∷◌ (ground arith) (same_key-eq xs ys (ground arith))

-- The links from `head` run through the indices of the list, and end in `KV_INVALID_IDX`.
abbrev pub IsChain : (ℕ → Entry) → ℕ → List ℕ → Type 0
IsChain entry head [] = head ≡ invalid_idx
IsChain entry head (i ∷ is) = (head ≡ i) × (i ≢ invalid_idx) × IsChain entry (entry i).next_idx is

-- The first entry of a chain that holds a key, with the one before it.
abbrev pub find_in : (ℕ → Entry) → List ℕ → ℕ → List ℕ → Option (ℕ × ℕ)
find_in entry key prev [] = none
find_in entry key prev (i ∷ is) =
    if same_key (entry i).key key then some (prev, i) else find_in entry key i is

-- With more fuel than the chain is long the walk finds that entry.
pub walk-eq-find_in :
    (entry : ℕ → Entry) (key : List ℕ) (fuel prev head : ℕ) (is : List ℕ)
    → length is < fuel
    → IsChain entry head is
    → walk entry key fuel prev head ≡ find_in entry key prev is
unfolding walk
walk-eq-find_in entry key zero prev head is f c = absurd (omega arith)
walk-eq-find_in entry key (suc fuel) prev head [] f c = rw ((==_iff head invalid_idx).1 c)
walk-eq-find_in entry key (suc fuel) prev head (i ∷ is) f c =
    rw (c.0, not_end, walk-eq-find_in entry key fuel i (entry i).next_idx is (omega arith) c.2)
  where
    not_end : (i == invalid_idx) ≡ false
    not_end = ground (arith, c.1)

-- A write that keeps the link of an entry keeps every chain.
pub IsChain-relink :
    (entry : ℕ → Entry) (k : ℕ) (e : Entry) (head : ℕ) (is : List ℕ)
    → e.next_idx ≡ (entry k).next_idx
    → IsChain entry head is
    → IsChain (update entry k e) head is
IsChain-relink entry k e head [] same c = c
IsChain-relink entry k e head (i ∷ is) same c = (
  c.0,
  c.1,
  subst (λ n. IsChain (update entry k e) n is)
      (sym (update_ind entry (λ j x. x.next_idx ≡ (entry j).next_idx) k i e same (λ _. refl)))
      (IsChain-relink entry k e (entry i).next_idx is same c.2),
)

-- A write outside a chain keeps it.
pub IsChain-update :
    (entry : ℕ → Entry) (k : ℕ) (e : Entry) (head : ℕ) (is : List ℕ)
    → count k is ≡ 0
    → IsChain entry head is
    → IsChain (update entry k e) head is
IsChain-update entry k e head [] n c = c
IsChain-update entry k e head (i ∷ is) n c =
    let ne : k ≢ i = ground (arith, n) in
    (
      c.0,
      c.1,
      rw (update_ne entry e ne)
          (IsChain-update entry k e (entry i).next_idx is (ground (arith, n)) c.2),
    )

-- The entry found, without the one before it.
abbrev pub second : Option (ℕ × ℕ) → Option ℕ
second none = none
second (some (p, i)) = some i

-- The first entry of a chain that holds a key.
abbrev pub index_in : (ℕ → Entry) → List ℕ → List ℕ → Option ℕ
index_in entry key [] = none
index_in entry key (i ∷ is) = if same_key (entry i).key key then some i else index_in entry key is

pub second-find_in :
    (entry : ℕ → Entry) (key : List ℕ) (prev : ℕ) (is : List ℕ)
    → second (find_in entry key prev is) ≡ index_in entry key is
second-find_in entry key prev [] = refl
second-find_in entry key prev (i ∷ is) = elim (Bool-cases (same_key (entry i).key key)) [
  | inl hit ↦ rw hit
  | inr miss ↦ rw miss (second-find_in entry key i is)
]

-- A write outside a chain does not change what is found there.
pub index_in-update :
    (entry : ℕ → Entry) (k : ℕ) (e : Entry) (key : List ℕ) (is : List ℕ)
    → count k is ≡ 0
    → index_in (update entry k e) key is ≡ index_in entry key is
index_in-update entry k e key [] n = refl
index_in-update entry k e key (i ∷ is) n =
    let ne : k ≢ i = ground (arith, n) in
    rw (update_ne entry e ne, index_in-update entry k e key is (ground (arith, n)))

-- Nor does a write that keeps the key of an entry.
pub index_in-rekey :
    (entry : ℕ → Entry) (k : ℕ) (e : Entry) (key : List ℕ) (is : List ℕ)
    → e.key ≡ (entry k).key
    → index_in (update entry k e) key is ≡ index_in entry key is
index_in-rekey entry k e key [] same = refl
index_in-rekey entry k e key (i ∷ is) same =
    ap₂ (λ (held : List ℕ) rest. if same_key held key then some i else rest)
      (update_ind entry (λ j x. x.key ≡ (entry j).key) k i e same (λ _. refl))
      (index_in-rekey entry k e key is same)

-- What is found holds the key.
pub index_in-some :
    (entry : ℕ → Entry) (key : List ℕ) (is : List ℕ) (i : ℕ)
    → index_in entry key is ≡ some i
    → (same_key (entry i).key key ≡ true) × (0 < count i is)
index_in-some entry key [] i h = absurd (cc)
index_in-some entry key (j ∷ is) i h = elim (Bool-cases (same_key (entry j).key key)) [
  | inl hit ↦
      let e : j ≡ i = ground arith in
      (subst (λ k. same_key (entry k).key key ≡ true) e hit, ground arith)
  | inr miss ↦ let r = index_in-some entry key is i (ground arith) in (r.0, ground (arith, r.1))
]

-- Where nothing is found, no entry of the chain holds the key.
pub index_in-none :
    (entry : ℕ → Entry) (key : List ℕ) (is : List ℕ) (i : ℕ)
    → index_in entry key is ≡ none
    → 0 < count i is
    → (entry i).key ≢ key
index_in-none entry key [] i h p e = absurd (omega arith)
index_in-none entry key (j ∷ is) i h p e = elim (Bool-cases (same_key (entry j).key key)) [
  | inl hit ↦ absurd (ground arith)
  | inr miss ↦ elim (Bool-cases (j == i)) [
    | inl here ↦ ground (
      arith,
      same_key_self key,
      ap (λ k. same_key (entry k).key key) ((==_iff j i).0 here),
      ap (λ k. same_key k key) e,
    )
    | inr on ↦ index_in-none entry key is i (ground arith) (ground arith) e
  ]
]
