-- ===== src/Components/Stateful/Recovery.antt =====
-- The counter of model_2.c through messages and restarts.
use gemini_nos.Base.{
  ℕ, zero, suc, ◌+◌, ◌%◌, ◌≤◌, ◌<◌, ◌≡◌, ◌≢◌, ◌⊎◌, inl, inr, Option, none, some, add32, u32_mod,
  List, ◌++◌, refl, subst, sym, ap, ◌∙◌, arith,
}
use gemini_nos.Kv.{Table, Notice, put, get}
use gemini_nos.Kv.Invariant.{KvInv, view}
use gemini_nos.Kv.Put.{put_refines, put-max_val_size}
use gemini_nos.Kv.Read.{get_reads}
use gemini_nos.Components.{word}
use gemini_nos.Components.Stateful.{Counted, state_key, int_bytes, put_int, on_msg, init}

-- An `int` that is written byte by byte reads back.
pub word-int_bytes : (n : ℕ) → n < u32_mod → word (int_bytes n) 0 ≡ n
unfolding int_bytes
word-int_bytes n h = omega arith

-- The table holds the counter under the component's name.
pub record IsSynced (name : List ℕ) (t : Table) (counter : ℕ) : Type 0 where
  pub chains : ℕ → List ℕ
  pub shape : KvInv t chains
  pub wide : 4 ≤ t.max_val_size
  pub area : ℕ → ℕ
  pub held : view t (state_key name) ≡ some (4, area)
  pub written : (i : ℕ) → i < 4 → area i ≡ int_bytes counter i

module _ (name : List ℕ) {t : Table} {chains : ℕ → List ℕ} (v : KvInv t chains)
    (wide : 4 ≤ t.max_val_size) where
  pub put-IsSynced :
      (counter : ℕ)
      → (view t (state_key name) ≢ none) ⊎ (t.free_top ≢ 0)
      → IsSynced name (put t (some (state_key name)) (some (int_bytes counter)) 4).1 counter
  put-IsSynced counter room = elim (put_refines v (state_key name) (int_bytes counter) 4 wide) [
    | inl (ok, p) ↦ record {
      chains = p.chains;
      shape = p.shape;
      wide = omega (arith, put-max_val_size t (state_key name) (int_bytes counter) 4);
      area = p.area;
      held = p.at_key;
      written = p.written;
    }
    | inr (busy, same, absent, full) ↦ elim room [
      | inl there ↦ absurd (there absent)
      | inr free ↦ absurd (free full)
    ]
  ]

length_of : Option (ℕ × (ℕ → ℕ)) → ℕ
length_of none = 0
length_of (some (len, area)) = len

area_of : Option (ℕ × (ℕ → ℕ)) → ℕ → ℕ
area_of none i = 0
area_of (some (len, area)) i = area i

module _ (name : List ℕ) {t : Table} {counter : ℕ} (s : IsSynced name t counter) where
  pub there : view t (state_key name) ≢ none
  there e = ground (arith, e, s.held)

  -- Loading the component again finds the counter.
  pub init-synced :
      (test : Option Table)
      → counter < u32_mod
      → init name (some t) test
        ≡ record { state_table = some t; test_table = test; local_counter = counter }
  unfolding init length_of area_of
  init-synced test fits = elim (get_reads t (state_key name) (λ _. 0) 4) [
    | inl (absent, e) ↦ absurd (there absent)
    | inr (len, area, e, ok, l, bytes, rest) ↦
        let four : len ≡ 4 = ap length_of (sym e ∙ s.held) in
        let same : area ≡ s.area = ap area_of (sym e ∙ s.held) in
        let read : (i : ℕ) → i < 4 → (get t (state_key name) (λ _. 0) 4).1 i ≡ int_bytes counter i =
          λ i h. bytes i (omega (arith, four, h)) h ∙ ap (λ a. a i) same ∙ s.written i h in
        rw ok (
          ap (λ n. record { state_table = some t; test_table = test; local_counter = n })
            (omega (arith, read 0, read 1, read 2, read 3, word-int_bytes counter fits)))
  ]

-- The component after `n` messages.
pub messages : List ℕ → ℕ → Option Counted → Option Counted
unfolding on_msg
messages name zero ctx = ctx
messages name (suc n) ctx = messages name n (on_msg name ctx).0

-- The counter stands at `n`, here and in the table.
record IsCounting (name : List ℕ) (n : ℕ) (ctx : Counted) : Type 0 where
  table : Table
  kept : ctx.state_table ≡ some table
  synced : IsSynced name table ctx.local_counter
  counted : ctx.local_counter ≡ n % u32_mod

-- The calls that a message brings about begin with those of the state table.
pub on_msg-notices :
    (name : List ℕ) (t : Table) (test : Option Table) (counter : ℕ)
    → (others : List Notice) × ((on_msg name
          (some (record { state_table = some t; test_table = test; local_counter = counter }))).1
        ≡ (put t (some (state_key name)) (some (int_bytes (add32 counter 1))) 4).2 ++ others)
unfolding on_msg put_int
on_msg-notices name t test counter = (_, refl)

module _ (name : List ℕ) where
  on_msg-IsCounting :
      (n : ℕ) (ctx : Counted)
      → IsCounting name n ctx
      → (ctx' : Counted) × ((on_msg name (some ctx)).0 ≡ some ctx') × IsCounting name (suc n) ctx'
  unfolding on_msg put_int
  on_msg-IsCounting n ctx c = (
    _,
    refl,
    record {
      table =
          (put c.table (some (state_key name)) (some (int_bytes (add32 ctx.local_counter 1))) 4).1;
      kept = ap (λ o. (put_int o (state_key name) (add32 ctx.local_counter 1)).0) c.kept;
      synced =
          put-IsSynced name c.synced.shape c.synced.wide (add32 ctx.local_counter 1)
            (inl (there name c.synced));
      counted = omega (arith, c.counted);
    },
  )

  messages-IsCounting :
      (k n : ℕ) (ctx : Counted)
      → IsCounting name n ctx
      → (ctx' : Counted) × (messages name k (some ctx) ≡ some ctx') × IsCounting name (n + k) ctx'
  unfolding messages
  messages-IsCounting zero n ctx c = (ctx, refl, subst (λ i. IsCounting name i ctx) (omega arith) c)
  messages-IsCounting (suc k) n ctx c =
      let (next, e, d) = on_msg-IsCounting n ctx c in
      let (last, f, g) = messages-IsCounting k (suc n) next d in
      (last, ap (messages name k) e ∙ f, subst (λ i. IsCounting name i last) (omega arith) g)

  module _ {t : Table} {chains : ℕ → List ℕ} (v : KvInv t chains) (wide : 4 ≤ t.max_val_size)
      (absent : view t (state_key name) ≡ none) (room : t.free_top ≢ 0) where
    init-IsCounting : (test : Option Table) → IsCounting name 0 (init name (some t) test)
    unfolding init put_int
    init-IsCounting test = elim (get_reads t (state_key name) (λ _. 0) 4) [
      | inl (_, e) ↦ rw e (record {
        table = (put t (some (state_key name)) (some (int_bytes 0)) 4).1;
        kept = refl;
        synced = put-IsSynced name v wide 0 (inr room);
        counted = refl;
      })
      | inr (len, area, e, ok, l, bytes, rest) ↦ absurd (ground (arith, absent, e))
    ]

    -- A component whose state table is in shape, has room for values of four bytes and for one
    -- more entry, and none under the component's name: after it is initialised and has handled `n`
    -- messages, its counter is `n` as a 32-bit number, and so is the counter of a component that
    -- is initialised again with the table as it is then, whatever its other table.
    pub counter_recovered :
        (test test' : Option Table) (n : ℕ)
        → (ctx : Counted) × (after : Table) × (messages name n (some (init name (some t) test))
            ≡ some ctx)
          × (ctx.local_counter ≡ n % u32_mod)
          × (ctx.state_table ≡ some after)
          × ((init name (some after) test').local_counter ≡ n % u32_mod)
    counter_recovered test test' n =
        let (ctx, e, c) =
          messages-IsCounting n 0 (init name (some t) test) (init-IsCounting test) in
        let counted : ctx.local_counter ≡ n % u32_mod = omega (arith, c.counted) in
        (
          ctx,
          c.table,
          e,
          counted,
          c.kept,
          ap (λ (k : Counted). k.local_counter)
                (init-synced name c.synced test' (omega (arith, c.counted)))
              ∙ counted,
        )
