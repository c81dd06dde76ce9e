-- ===== src/Components/Perf/Stalling.antt =====
-- What a buffer that is not given does to a test.
use gemini_nos.Base.{
  ℕ, zero, suc, ◌+◌, ◌-◌, ◌*◌, ◌<◌, ◌≡◌, ◌≢◌, ◌⊎◌, inl, inr, Option, none, some, u32_mod, refl, sym,
  ap, ◌∙◌, arith, Option-cases,
}
use gemini_nos.Components.{Message, envelope, word}
use gemini_nos.Components.Perf.{Exchange, send_ping, ping_on_msg, pong_on_msg, deliver, deliveries}
use gemini_nos.Components.Perf.Counting.{pinged, goes_on, asked, answers, IsRequest, starts}

module _ (alloc : ℕ → Option Message) (now : ℕ) where
  apart : (i j : ℕ) (b : Message) → alloc i ≡ none → alloc j ≡ some b → i ≢ j
  apart i j b e f same = ground (arith, sym e ∙ ap alloc same ∙ f)

  unanswered :
      (x : Exchange) (msg : Message)
      → x.in_flight ≡ some msg
      → IsRequest msg
      → alloc x.turn ≡ none
      → ((deliver alloc now x).in_flight ≡ none) × ((deliver alloc now x).completed ≡ x.completed)
  unfolding deliver ping_on_msg send_ping
  unanswered x msg e (at_ping, code) first =
      (ground (arith, e, at_ping, code, first), ground (arith, e, at_ping, code, first))

  idle : (x : Exchange) → x.in_flight ≡ none → deliver alloc now x ≡ x
  unfolding deliver
  idle x e = ground (arith, e)

  silent : (n : ℕ) (x : Exchange) → x.in_flight ≡ none → deliveries alloc now n x ≡ x
  unfolding deliveries
  silent zero x e = refl
  silent (suc n) x e = ap (deliveries alloc now n) (idle x e) ∙ silent n x e

  module _ (start target count turn completed : ℕ) (a : Message) where
    one_quiet :
        (deliver alloc now (pinged start target count turn completed a)).completed ≡ completed
    unfolding deliver envelope
    one_quiet = ground arith

    no_pong :
        alloc turn ≡ none
        → (deliver alloc now (pinged start target count turn completed a)).in_flight ≡ none
    unfolding deliver pong_on_msg envelope
    no_pong e = ground (arith, e)

    no_ping :
        (b : Message)
        → alloc turn ≡ some b
        → alloc (turn + 1) ≡ none
        → count + 1 < target
        → target < u32_mod
        → let y =
            deliver alloc now (deliver alloc now (pinged start target count turn completed a)) in
          (y.in_flight ≡ none) × (y.completed ≡ completed)
    unfolding deliver ping_on_msg pong_on_msg send_ping envelope
    no_ping b e f more fits = (ground (arith, e, f, more, fits), ground (arith, e, f, more, fits))

  -- The delivery `k` from now finds no buffer, and `k` is not the last of the test.
  stalls :
      (n k start target count turn completed : ℕ) (a : Message)
      → alloc (turn + k) ≡ none
      → (k ≡ 0) ⊎ (count * 2 + k + 1 < target * 2)
      → target < u32_mod
      → (deliveries alloc now n (pinged start target count turn completed a)).completed ≡ completed
  unfolding deliveries
  stalls zero k start target count turn completed a e inside fits = refl
  stalls (suc zero) k start target count turn completed a e inside fits =
      one_quiet start target count turn completed a
  stalls (suc (suc n)) k start target count turn completed a e inside fits =
      elim (Option-cases (alloc turn)) [
        | inl gone ↦
            ap (λ (x : Exchange). x.completed)
              (silent (suc n) _ (no_pong start target count turn completed a gone))
            ∙ one_quiet start target count turn completed a
        | inr (b, first) ↦
            let later : k ≢ 0 = λ z. apart _ turn b e first (omega (arith, z)) in
            let within : count * 2 + k + 1 < target * 2 = elim inside [
              | inl z ↦ absurd (later z)
              | inr h ↦ h
            ] in
            let more : count + 1 < target = omega (arith, later, within) in
            elim (Option-cases (alloc (turn + 1))) [
              | inl gone ↦
                  let y = no_ping start target count turn completed a b first gone more fits in
                  ap (λ (x : Exchange). x.completed) (silent n _ y.0) ∙ y.1
              | inr (c, second) ↦
                  let past : k ≢ 1 = λ z. apart _ (turn + 1) c e second (omega (arith, z)) in
                  let shifted : turn + 2 + (k - 2) ≡ turn + k = omega (arith, past, later) in
                  ap (λ x. (deliveries alloc now n x).completed)
                    (goes_on alloc now start target count turn completed a b c first second more
                      fits)
                  ∙ stalls n (k - 2) start target (count + 1) (turn + 2) completed c
                      (ap alloc shifted ∙ e) (inr (omega (arith, past, later, within))) fits
            ]
      ]

-- A request on its way to the ping component whose test the pool lets down: one of the buffers
-- that the test needs, two for each of its answers, is not given. Then, whatever the pool does
-- otherwise, the end of the test is never reported.
pub test_stalls :
    (alloc : ℕ → Option Message) (now : ℕ) (x : Exchange) (msg : Message)
    → x.in_flight ≡ some msg
    → IsRequest msg
    → word msg.payload 0 < u32_mod
    → (k : ℕ) → k < answers msg * 2
    → alloc (x.turn + k) ≡ none
    → (n : ℕ) → (deliveries alloc now n x).completed ≡ x.completed
unfolding deliveries
test_stalls alloc now x msg e request fits k inside gone zero = refl
test_stalls alloc now x msg e request fits k inside gone (suc n) =
    elim (Option-cases (alloc x.turn)) [
      | inl first ↦
          let y = unanswered alloc now x msg e request first in
          ap (λ (z : Exchange). z.completed) (silent alloc now n _ y.0) ∙ y.1
      | inr (a, first) ↦
          let later : k ≢ 0 = λ z. apart alloc now _ x.turn a gone first (omega (arith, z)) in
          let shifted : x.turn + 1 + (k - 1) ≡ x.turn + k = omega (arith, later) in
          ap (λ z. (deliveries alloc now n z).completed) (starts alloc now x msg a e request first)
          ∙ stalls alloc now n (k - 1) now (asked msg) 0 (x.turn + 1) x.completed a
              (ap alloc shifted ∙ gone) (ground (arith, inside, later)) (ground (arith, fits))
    ]
