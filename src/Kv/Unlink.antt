-- ===== src/Kv/Unlink.antt =====
-- Taking an entry out of a chain.
use gemini_nos.Base.{
  ℕ, ◌≤◌, ◌<◌, ◌≡◌, ◌≢◌, inl, inr, refl, sym, ap, ap₂, ◌∙◌, subst, arith, false, none, some, ◌==◌,
  if◌then◌else◌, update, update_ne, update_self, List, [], ◌∷◌, ◌++◌, count, Bool-cases, ==_iff,
}
use gemini_nos.Kv.{Entry, invalid_idx, same_key}
use gemini_nos.Kv.Chain.{IsChain, IsChain-update, find_in, index_in, same_key-eq}

-- The last of a list, or another if it is empty.
abbrev pub last_or : ℕ → List ℕ → ℕ
last_or d [] = d
last_or d (x ∷ xs) = last_or x xs

-- What the walk found: where the entry stands in the chain, and the entry before it.
pub record Found (entry : ℕ → Entry) (key : List ℕ) (prev p i : ℕ) (is : List ℕ) : Type 0 where
  pub front : List ℕ
  pub back : List ℕ
  pub split : is ≡ front ++ i ∷ back
  pub before : p ≡ last_or prev front
  pub holds : (entry i).key ≡ key

pub find_in-Found :
    (entry : ℕ → Entry) (key : List ℕ) (prev : ℕ) (is : List ℕ) (p i : ℕ)
    → find_in entry key prev is ≡ some (p, i)
    → Found entry key prev p i is
find_in-Found entry key prev [] p i h = absurd (cc)
find_in-Found entry key prev (j ∷ is) p i h = elim (Bool-cases (same_key (entry j).key key)) [
  | inl hit ↦
      let e : j ≡ i = ground arith in
      record {
        front = [];
        back = is;
        split = ap (λ k. k ∷ is) e;
        before = ground arith;
        holds = ap (λ k. (entry k).key) (sym e) ∙ same_key-eq (entry j).key key hit;
      }
  | inr miss ↦
      let r = find_in-Found entry key j is p i (ground arith) in
      record {
        front = j ∷ r.front;
        back = r.back;
        split = ap (◌∷◌ j) r.split;
        before = r.before;
        holds = r.holds;
      }
]

pub count-last_or : (x : ℕ) (xs ys : List ℕ) → 0 < count (last_or x xs) (x ∷ xs ++ ys)
count-last_or x [] ys = ground arith
count-last_or x (y ∷ ys) zs = ground (arith, count-last_or y ys zs)

-- The chain goes on from the entry before to the one behind.
pub IsChain-unlink :
    (entry : ℕ → Entry) (head x i : ℕ) (xs back : List ℕ)
    → IsChain entry head (x ∷ xs ++ i ∷ back)
    → ((k : ℕ) → count k (x ∷ xs ++ i ∷ back) ≤ 1)
    → let p = last_or x xs in
      IsChain
        (update entry p (record (entry p) { next_idx = (entry i).next_idx }))
        head
        (x ∷ xs ++ back)
IsChain-unlink entry head x i [] back c once =
    let next = (entry i).next_idx in
    (
      c.0,
      c.1,
      rw (update_self entry x (record (entry x) { next_idx = next })) (
          IsChain-update entry x _ next back (ground (arith, once x))
            (subst (λ k. IsChain entry k back) refl c.2.2)),
    )
IsChain-unlink entry head x i (y ∷ ys) back c once =
    let p = last_or y ys in
    let ne : p ≢ x = λ e.
      ground
        (arith, once x, count-last_or y ys (i ∷ back), ap (λ k. count k (y ∷ ys ++ i ∷ back)) e) in
    (
      c.0,
      c.1,
      rw (update_ne entry (record (entry p) { next_idx = (entry i).next_idx }) ne)
          (IsChain-unlink entry (entry x).next_idx y i ys back c.2 (λ k. ground (arith, once k))),
    )

pub IsChain-proper :
    (entry : ℕ → Entry) (head i : ℕ) (is : List ℕ)
    → IsChain entry head is
    → 0 < count i is
    → i ≢ invalid_idx
IsChain-proper entry head i [] c h = absurd (omega arith)
IsChain-proper entry head i (j ∷ is) c h = elim (Bool-cases (j == i)) [
  | inl here ↦ subst (λ k. k ≢ invalid_idx) ((==_iff j i).0 here) c.1
  | inr on ↦ IsChain-proper entry (entry j).next_idx i is c.2 (ground arith)
]

-- Searches see the keys alone.
pub index_in-keys :
    (entry entry' : ℕ → Entry) (key : List ℕ) (is : List ℕ)
    → ((j : ℕ) → (entry j).key ≡ (entry' j).key)
    → index_in entry key is ≡ index_in entry' key is
index_in-keys entry entry' key [] same = refl
index_in-keys entry entry' key (i ∷ is) same =
    ap₂ (λ (held : List ℕ) rest. if same_key held key then some i else rest) (same i)
      (index_in-keys entry entry' key is same)

-- An entry that holds another key can be left out.
pub index_in-skip :
    (entry : ℕ → Entry) (key : List ℕ) (i : ℕ) (front back : List ℕ)
    → same_key (entry i).key key ≡ false
    → index_in entry key (front ++ i ∷ back) ≡ index_in entry key (front ++ back)
index_in-skip entry key i [] back other = rw other
index_in-skip entry key i (j ∷ front) back other =
    ap (λ rest. if same_key (entry j).key key then some j else rest)
      (index_in-skip entry key i front back other)

-- A key that no entry of the chain holds is not found.
pub index_in-absent :
    (entry : ℕ → Entry) (key : List ℕ) (is : List ℕ)
    → ((j : ℕ) → 0 < count j is → (entry j).key ≢ key)
    → index_in entry key is ≡ none
index_in-absent entry key [] h = refl
index_in-absent entry key (i ∷ is) h = elim (Bool-cases (same_key (entry i).key key)) [
  | inl hit ↦ absurd (h i (ground arith) (same_key-eq (entry i).key key hit))
  | inr miss ↦ rw miss (index_in-absent entry key is (λ j p. h j (omega arith)))
]
