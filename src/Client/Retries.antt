-- ===== src/Client/Retries.antt =====
-- The attempts of `notify` and `connect` are bounded (src/teleclient.cpp).
use vorsprung_logger.Base.{
  ℕ, zero, suc, ◌+◌, ◌≤◌, ◌≡◌, refl, ap, inl, inr, ◌==◌, Bool-cases, Option-cases, List, [], ◌∷◌,
  Option, arith,
}
use vorsprung_logger.Text.Cstring.{upto_nul, find}
use vorsprung_logger.Client.{
  event_login, event_logout, event_ack, Cell, Device, event_packet, Client, take_reply, good_reply,
  attempt, notify, count_received,
}

module _ (c : Cell) (sent : c.Net → ℕ)
    (sends : (packet : List ℕ) (net : c.Net) → sent (c.send packet net).1 ≤ sent net + 1)
    (receives : (net : c.Net) → sent (c.receive net).1 ≡ sent net) where
  net-take_reply :
      (event : ℕ) (cells : List ℕ) (t : Client c) → (take_reply c event cells t).net ≡ t.net
  unfolding take_reply
  net-take_reply event cells t = elim (Bool-cases (event == event_login)) [
    | inl e ↦ elim (Option-cases (find (b'T' ∷ b'M' ∷ b'=' ∷ []) cells)) [
      | inl n ↦ rw (e, n) refl
      | inr (p, n) ↦ rw (e, n) refl
    ]
    | inr e ↦ elim (Bool-cases (event == event_logout)) [
      | inl l ↦ rw (e, l) refl
      | inr l ↦ rw (e, l) refl
    ]
  ]

  attempt-sent :
      (left event : ℕ) (packet : List ℕ) (t : Client c)
      → sent (attempt c left event packet t).1.net ≤ sent t.net + left
  unfolding attempt
  attempt-sent zero event packet t = omega arith
  attempt-sent (suc left) event packet t = elim (Bool-cases (c.send packet t.net).0) [
    | inr s ↦ rw (s, attempt) (omega (arith, one))
    | inl s ↦ elim (Bool-cases (event == event_ack)) [
      | inl a ↦ rw (s, a, attempt) (omega (arith, one))
      | inr a ↦ elim (Option-cases (c.receive (c.send packet t.net).1).0) [
        | inl r ↦
            rw (s, a, r, attempt)
              (omega (arith, one, two, attempt-sent left event packet (record t { net = after })))
        | inr ([], r) ↦
            rw (s, a, r, attempt)
              (omega (arith, one, two, attempt-sent left event packet (record t { net = after })))
        | inr (x ∷ xs, r) ↦ elim (Option-cases (good_reply c event (upto_nul (x ∷ xs)))) [
          | inl g ↦
              rw (s, a, r, g, attempt)
                (omega (arith, one, two, attempt-sent left event packet (counted (x ∷ xs))))
          | inr (text, g) ↦
              rw (s, a, r, g, attempt)
                (omega (arith, one, two, ap sent (net-take_reply event text (counted (x ∷ xs)))))
        ]
      ]
    ]
  ]
    where
      after : c.Net
      after = (c.receive (c.send packet t.net).1).1

      counted : List ℕ → Client c
      counted cells = count_received c cells after t

      one : sent (c.send packet t.net).1 ≤ sent t.net + 1
      one = sends packet t.net

      two : sent after ≡ sent (c.send packet t.net).1
      two = receives (c.send packet t.net).1

  -- `notify` sends its packet at most three times. A `send` of the modem sends at most one, and a
  -- `receive` none.
  pub notify-sent :
      (d : Device) (memory : List ℕ) (event : ℕ) (payload : Option (List ℕ)) (t : Client c)
      → sent (notify c d memory event payload t).1.net ≤ sent t.net + 3
  unfolding notify
  notify-sent d memory event payload t =
      attempt-sent 3 event (event_packet d event payload (c.millis t.net) memory).text t
