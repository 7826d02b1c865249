-- ===== src/Client/Session.antt =====
-- The login flag of the client (src/teleclient.cpp).
use vorsprung_logger.Base.{
  ℕ, zero, suc, ◌≡◌, ◌≢◌, refl, ap, ◌∙◌, ◌⊎◌, inl, inr, Bool, true, false, ◌==◌, if◌then◌else◌,
  Bool-cases, Option-cases, List, [], ◌∷◌, Option, none, arith,
}
use vorsprung_logger.Text.Cstring.{upto_nul}
use vorsprung_logger.Client.{
  event_login, event_logout, event_ack, Cell, Device, event_packet, Client, take_reply, good_reply,
  attempt, notify,
}
use vorsprung_logger.Client.Connect.{login_attempt, connect_event, connect}

-- The login flag behind an event that was answered.
abbrev pub login_after : ℕ → Bool → Bool
login_after event old =
    if event == event_login then true else if event == event_logout then false else old

module _ (c : Cell) where
  -- A call for an event failed and left the flag, or was answered and set it.
  abbrev pub Answered : ℕ → Bool → Bool × Client c → Type 0
  Answered event old o =
      ((o.0 ≡ false) × (o.1.login ≡ old)) ⊎ ((o.0 ≡ true) × (o.1.login ≡ login_after event old))

  login-take_reply :
      (event : ℕ) (cells : List ℕ) (t : Client c)
      → (take_reply c event cells t).login ≡ login_after event t.login
  unfolding take_reply
  login-take_reply event cells t = elim (Bool-cases (event == event_login)) [
    | inl e ↦ rw e refl
    | inr e ↦ elim (Bool-cases (event == event_logout)) [
      | inl l ↦ rw (e, l) refl
      | inr l ↦ rw (e, l) refl
    ]
  ]

  -- The loop of `notify` answers for the event, or leaves the flag.
  attempt-Answered :
      (left event : ℕ) (packet : List ℕ) (t : Client c)
      → event ≢ event_ack
      → Answered event t.login (attempt c left event packet t)
  unfolding attempt
  attempt-Answered zero event packet t h = inl (refl, refl)
  attempt-Answered (suc left) event packet t h = elim (Bool-cases (c.send packet t.net).0) [
    | inr s ↦ inl (rw (s, attempt) refl, rw (s, attempt) refl)
    | inl s ↦ elim (Option-cases (c.receive (c.send packet t.net).1).0) [
      | inl r ↦ rw (s, no_ack, r, attempt) (attempt-Answered left event packet _ h)
      | inr ([], r) ↦ rw (s, no_ack, r, attempt) (attempt-Answered left event packet _ h)
      | inr (x ∷ xs, r) ↦ elim (Option-cases (good_reply c event (upto_nul (x ∷ xs)))) [
        | inl g ↦ rw (s, no_ack, r, g, attempt) (attempt-Answered left event packet _ h)
        | inr (text, g) ↦ inr (
          rw (s, no_ack, r, g, attempt) refl,
          rw (s, no_ack, r, g, attempt) (login-take_reply event text _),
        )
      ]
    ]
  ]
    where
      no_ack : (event == event_ack) ≡ false
      no_ack = ground arith

  -- `notify` of an event that waits for its reply answers true and sets the login flag as the event
  -- says, or answers false and leaves the flag as it was.
  pub notify-Answered :
      (d : Device) (memory : List ℕ) (event : ℕ) (payload : Option (List ℕ)) (t : Client c)
      → event ≢ event_ack
      → Answered event t.login (notify c d memory event payload t)
  unfolding notify
  notify-Answered d memory event payload t h =
      attempt-Answered 3 event (event_packet d event payload (c.millis t.net) memory).text t h

  login_attempt-Answered :
      (left : ℕ) (d : Device) (memory : List ℕ) (event : ℕ) (old : Bool) (t : Client c)
      → event ≢ event_ack
      → t.login ≡ old
      → Answered event old (login_attempt c left d memory event t)
  unfolding login_attempt
  login_attempt-Answered zero d memory event old t h k = inl (refl, k)
  login_attempt-Answered (suc left) d memory event old t h k =
      elim (Bool-cases (c.open_server t.net).0) [
        | inr o ↦ elim (Bool-cases (c.check net₁).0) [
          | inr a ↦ inl (rw (o, a, login_attempt) refl, rw (o, a, login_attempt) k)
          | inl a ↦ rw (o, a, login_attempt) (login_attempt-Answered left d memory event old _ h k)
        ]
        | inl o ↦ elim (notify-Answered d memory event none (record t { net = net₁ }) h) [
          | inr (taken, flag) ↦ inr (
            rw (o, taken, login_attempt) refl,
            rw (o, taken, login_attempt) (flag ∙ ap (login_after event) k),
          )
          | inl (missed, flag) ↦ elim (Bool-cases (c.check (asked net₁).net).0) [
            | inr s ↦
                inl (
                  rw (o, missed, s, login_attempt) refl,
                  rw (o, missed, s, login_attempt) (flag ∙ k),
                )
            | inl s ↦
                rw (o, missed, s, login_attempt)
                  (login_attempt-Answered left d memory event old _ h (flag ∙ k))
          ]
        ]
      ]
    where
      net₁ : c.Net
      net₁ = (c.open_server t.net).1

      asked : c.Net → Client c
      asked net = (notify c d memory event none (record t { net = net })).1

  -- A full `connect` that answers true leaves the client logged in, whether it logged in anew or
  -- only reconnected; one that answers false leaves the login flag as it was.
  connect-login :
      (d : Device) (memory : List ℕ) (t : Client c)
      → (((connect c false d memory t).0 ≡ false)
          × ((connect c false d memory t).1.login ≡ t.login))
        ⊎ (((connect c false d memory t).0 ≡ true) × ((connect c false d memory t).1.login ≡ true))
  unfolding connect
  connect-login d memory t = elim (Bool-cases t.login) [
    | inl l ↦
        elim (login_attempt-Answered 3 d memory (connect_event c t) t.login ready
          (λ e. ground arith) refl) [ inl r ↦ inl r | inr (r, flag) ↦ inr (r, flag ∙ rw l refl) ]
    | inr l ↦
        elim (login_attempt-Answered 3 d memory (connect_event c t) t.login ready
          (λ e. ground arith) refl) [ inl r ↦ inl r | inr (r, flag) ↦ inr (r, flag ∙ rw l refl) ]
  ]
    where
      ready : Client c
      ready = record t { net = c.close t.net; packets = 0 }
