-- ===== src/Ipc/Receive/Greeting.antt =====
-- How a node that has greeted is reached.
use gemini_nos.Base.{
  strncpy_short, ◌^◌, ℕ, ◌+◌, ◌<◌, ◌≤◌, ◌≡◌, ◌≢◌, inl, inr, refl, sym, ap, subst, arith, Bool, true,
  false, Option-cases, none, some, ◌==◌, ◌||◌, leb, update, update_self, update_ne, dec_lt,
}
use gemini_nos.Base.Scan.{scan, scan-Found, scan-none, scan_finds}
use gemini_nos.Ipc.{Conn, ConnPool, get_or_create_conn, max_remote_conns, passive_path}
use gemini_nos.Ipc.Receive.{Peer, greet, promote, set_conn}

-- The test by which the search for a connection goes when it is given no path.
named : ConnPool → ℕ → ℕ → Bool
named p name i = ((p.conn i).node_name == name) || false

module _ (name : ℕ) (short : name < 2 ^ 248) where
  named_iff : (p : ConnPool) (i : ℕ) → (p.conn i).node_name ≡ name → named p name i ≡ true
  unfolding named
  named_iff p i e = ground arith

  named_not : (p : ConnPool) (i : ℕ) → (p.conn i).node_name ≢ name → named p name i ≡ false
  unfolding named
  named_not p i ne = ground arith

  of_named : (p : ConnPool) (i : ℕ) → named p name i ≡ true → (p.conn i).node_name ≡ name
  unfolding named
  of_named p i h = ground arith

  of_unnamed : (p : ConnPool) (i : ℕ) → named p name i ≡ false → (p.conn i).node_name ≢ name
  unfolding named
  of_unnamed p i h e = ground arith

  -- The first connection of a name is the one found by it.
  record IsFirst (p : ConnPool) (j : ℕ) : Type 0 where
    inside : j < p.count
    holds : (p.conn j).node_name ≡ name
    before : (k : ℕ) → k < j → (p.conn k).node_name ≢ name

  reached :
      (p : ConnPool) (j : ℕ) → IsFirst p j → get_or_create_conn p (some name) none ≡ (some j, p)
  unfolding get_or_create_conn named
  reached p j v =
      rw
        (
          scan_finds (named p name) 0 p.count j (omega arith) (omega (arith, v.inside))
              (named_iff p j v.holds) (λ k a b. named_not p k (v.before k b)),
          get_or_create_conn,
        )
        refl

  -- A connection that keeps its name is still the first.
  kept :
      (p : ConnPool) (j : ℕ) (c : Conn)
      → IsFirst p j
      → c.node_name ≡ name
      → IsFirst (set_conn p j c) j
  kept p j c v e = record {
    inside = v.inside;
    holds = rw (update_self p.conn j c) e;
    before = λ k b.
        rw (update_ne p.conn {i = j} {j = k} c (λ same. absurd (omega (arith, same))))
          (v.before k b);
  }

  -- What the search for the name gives.
  data Searched (p : ConnPool) : Type 0 where
    full :
        max_remote_conns ≤ p.count → get_or_create_conn p (some name) none ≡ (none, p) → Searched p
    conn :
        (j : ℕ) (q : ConnPool)
        → get_or_create_conn p (some name) none ≡ (some j, q)
        → IsFirst q j
        → Searched p

  -- The connection that is made where no other has the name.
  made : ConnPool → ConnPool
  made p = record {
    conn = update p.conn p.count (record (p.conn p.count) {
      node_name = name;
      uds_path = passive_path;
      fd = none;
      head = 0;
      tail = 0;
      is_connected = false;
      is_congested = false;
    });
    count = p.count + 1;
  }

  refuses :
      (p : ConnPool)
      → scan (named p name) 0 p.count ≡ none
      → max_remote_conns ≤ p.count
      → get_or_create_conn p (some name) none ≡ (none, p)
  unfolding get_or_create_conn named
  refuses p miss many =
      let late : leb max_remote_conns p.count ≡ true = ground arith in
      rw (miss, late, get_or_create_conn) refl

  makes :
      (p : ConnPool)
      → scan (named p name) 0 p.count ≡ none
      → p.count < max_remote_conns
      → get_or_create_conn p (some name) none ≡ (some p.count, made p)
  unfolding get_or_create_conn named made
  makes p miss few =
      let early : leb max_remote_conns p.count ≡ false = ground arith in
      rw (miss, early, strncpy_short 31 name short, get_or_create_conn) refl

  made-IsFirst : (p : ConnPool) → scan (named p name) 0 p.count ≡ none → IsFirst (made p) p.count
  unfolding made
  made-IsFirst p miss = record {
    inside = omega arith;
    holds = ap (λ (c : Conn). c.node_name) (update_self p.conn p.count _);
    before = λ k b.
        rw (update_ne p.conn {i = p.count} {j = k} _ (λ same. absurd (omega (arith, same))))
          (of_unnamed p k (scan-none (named p name) 0 p.count k miss (omega arith) (omega arith)));
  }

  search : (p : ConnPool) → Searched p
  search p = elim (Option-cases (scan (named p name) 0 p.count)) [
    | inr (j, hit) ↦
        let f = scan-Found (named p name) 0 p.count j hit in
        let v : IsFirst p j = record {
          inside = omega (arith, f.upper);
          holds = of_named p j f.passes;
          before = λ k b. of_unnamed p k (f.first k (omega arith) b);
        } in
        conn j p (reached p j v) v
    | inl miss ↦ elim (dec_lt p.count max_remote_conns) [
      | no many ↦ full (omega arith) (refuses p miss (omega arith))
      | yes few ↦ conn p.count (made p) (makes p miss few) (made-IsFirst p miss)
    ]
  ]

module _ {ℓ} {S : Type ℓ} where
  -- The outcome of a handshake on a passive connection.
  pub data Greeted (fd name : ℕ) (p p' : Peer S) : Type ℓ where
    turned_away : max_remote_conns ≤ p.pool.count → p'.pool ≡ p.pool → Greeted fd name p p'
    known :
        (j : ℕ)
        → get_or_create_conn p'.pool (some name) none ≡ (some j, p'.pool)
        → (p'.pool.conn j).fd ≡ some fd
        → (p'.pool.conn j).is_connected ≡ true
        → Greeted fd name p p'

  -- After a handshake on a passive connection with a name of at most 31 bytes, the search for the node by its name finds a
  -- connection that is up and has the descriptor of the handshake, and makes no other; unless the
  -- pool of connections is full, and stays as it is.
  pub greet_reaches :
      (accepted : Bool) (fd name : ℕ) (p : Peer S)
      → name < 2 ^ 248
      → Greeted fd name p (greet accepted none fd name p)
  unfolding greet promote
  greet_reaches accepted fd name p short = elim (search name short p.pool) [
    | full many e ↦
        subst (Greeted fd name p) (sym (ap (promote accepted fd p) e)) (turned_away many refl)
    | conn j q e v ↦
        let c : Conn = record (q.conn j) { fd = some fd; is_connected = true } in
        let self = update_self q.conn j c in
        subst (Greeted fd name p) (sym (ap (promote accepted fd p) e)) (
          known j (reached name short (set_conn q j c) j (kept name short q j c v v.holds))
            (ap (λ (d : Conn). d.fd) self) (ap (λ (d : Conn). d.is_connected) self))
  ]
