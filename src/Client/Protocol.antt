-- ===== src/Client/Protocol.antt =====
-- What the client promises: answers as a relation, without a bound on the attempts.
use lact.Prelude.{
  ℕ, zero, suc, ◌+◌, ◌≤◌, String, ◌∷◌, ◌≡◌, ◌↔◌, some, arith, inl, inr, Option-cases,
}
use lact.Prelude.Exec.{Error, Result, Result-cases, ok, err}
use lact.Client.{Network, DaemonClient, disconnected, reconnected, reconnect, make_request}

module _ {Connection World : Type 0} (net : Network Connection World) where
  abbrev pub Client : Type 0
  Client = DaemonClient Connection World

  abbrev pub connecting : Client → Result Connection × World
  connecting c = net.new_connection c.stream c.world

  -- The client on a new connection, which it has announced.
  abbrev pub moved : Connection → Client → Client
  moved connection c = record c {
    stream = connection;
    sent = reconnected ∷ c.sent;
    world = (connecting c).1;
  }

  -- The client after a failure to connect.
  abbrev pub still_lost : Client → Client
  still_lost c = record c { world = (connecting c).1 }

  pub data Reconnects : Client → Client → Type 0 where
    at_once :
        {c c' : Client} (connection : Connection)
        → (connecting c).0 ≡ ok connection
        → c' ≡ moved connection c
        → Reconnects c c'
    retry :
        {c c' : Client} (e : Error)
        → (connecting c).0 ≡ err e
        → Reconnects (still_lost c) c'
        → Reconnects c c'

  module _ (payload : String) where
    abbrev pub asking : Client → Result String × World
    asking c = net.request c.stream payload c.world

    -- The client that has announced the loss of its connection, which it still has.
    abbrev pub disconnects : Client → Client
    disconnects c = record c { sent = disconnected ∷ c.sent; world = (asking c).1 }

    -- The request is answered, or lost, and then sent again on a new connection.
    pub data Answers : Client → String → Client → Type 0 where
      answered :
          {c c' : Client} {response : String}
          → (asking c).0 ≡ ok response
          → c' ≡ record c { world = (asking c).1 }
          → Answers c response c'
      lost :
          {c c' : Client} {response : String} (again : Client) (e : Error)
          → (asking c).0 ≡ err e
          → Reconnects (disconnects c) again
          → Answers again response c'
          → Answers c response c'

  reconnect_sound : (fuel : ℕ) (c c' : Client) → reconnect net fuel c ≡ some c' → Reconnects c c'
  unfolding reconnect
  reconnect_sound zero c c' p = absurd (ground arith)
  reconnect_sound (suc fuel) c c' p = elim (Result-cases (connecting c).0) [
    | inl (connection, e) ↦ at_once connection e (ground arith)
    | inr (e, q) ↦ retry e q (reconnect_sound fuel (still_lost c) c' (ground arith))
  ]

  reconnect_complete :
      {c c' : Client} → Reconnects c c' → (fuel : ℕ) × (reconnect net fuel c ≡ some c')
  unfolding reconnect
  reconnect_complete {c} (at_once connection e q) = (1, ground arith)
  reconnect_complete {c} (retry e q r) =
      let (fuel, p) = reconnect_complete r in (suc fuel, ground arith)

  -- More fuel does not change an answer.
  reconnect_more :
      (fuel more : ℕ) (c c' : Client)
      → fuel ≤ more
      → reconnect net fuel c ≡ some c'
      → reconnect net more c ≡ some c'
  unfolding reconnect
  reconnect_more zero more c c' h p = absurd (ground arith)
  reconnect_more (suc fuel) zero c c' h p = absurd (omega arith)
  reconnect_more (suc fuel) (suc more) c c' h p = elim (Result-cases (connecting c).0) [
    | inl (connection, e) ↦ ground arith
    | inr (e, q) ↦ ground (arith, reconnect_more fuel more (still_lost c) c')
  ]

  module _ (payload : String) where
    make_request_sound :
        (fuel : ℕ) (c : Client) (response : String) (c' : Client)
        → make_request net fuel payload c ≡ some (response, c')
        → Answers payload c response c'
    unfolding make_request
    make_request_sound zero c response c' p = absurd (ground arith)
    make_request_sound (suc fuel) c response c' p = elim (Result-cases (asking payload c).0) [
      | inl (r, e) ↦ answered (ground arith) (ground arith)
      | inr (e, q) ↦
          let start : Client = disconnects payload c in
          elim (Option-cases (reconnect net fuel start)) [
            | inl failed ↦ absurd (ground arith)
            | inr (again, found) ↦
                lost again e q (reconnect_sound fuel start again found)
                  (make_request_sound fuel again response c' (ground arith))
          ]
    ]

    make_request_more :
        (fuel more : ℕ) (c : Client) (answer : String × Client)
        → fuel ≤ more
        → make_request net fuel payload c ≡ some answer
        → make_request net more payload c ≡ some answer
    unfolding make_request
    make_request_more zero more c answer h p = absurd (ground arith)
    make_request_more (suc fuel) zero c answer h p = absurd (omega arith)
    make_request_more (suc fuel) (suc more) c answer h p =
        elim (Result-cases (asking payload c).0) [
          | inl (r, e) ↦ ground arith
          | inr (e, q) ↦
              let start : Client = disconnects payload c in
              elim (Option-cases (reconnect net fuel start)) [
                | inl failed ↦ absurd (ground arith)
                | inr (again, found) ↦ ground (
                  arith,
                  reconnect_more fuel more start again,
                  make_request_more fuel more again answer,
                )
              ]
        ]

    make_request_complete :
        {c : Client} {response : String} {c' : Client}
        → Answers payload c response c'
        → (fuel : ℕ) × (make_request net fuel payload c ≡ some (response, c'))
    unfolding make_request
    make_request_complete (answered e q) = (1, ground arith)
    make_request_complete {c} {response} {c'} (lost again e q r a) =
        let (one, found) = reconnect_complete r in
        let (two, rest) = make_request_complete a in
        let start : Client = disconnects payload c in
        (
          suc (one + two),
          ground (
            arith,
            reconnect_more one (one + two) start again,
            make_request_more two (one + two) again (response, c'),
          ),
        )

    -- With enough fuel `make_request` ends with a response and a client state exactly if the
    -- relation `Answers` does: the request is answered, or its loss is announced, a new connection
    -- takes the place of the old one after any number of failures and is announced, and the request
    -- is sent again on it.
    pub make_request_iff :
        (c : Client) (response : String) (c' : Client)
        → ((fuel : ℕ) × (make_request net fuel payload c ≡ some (response, c')))
          ↔ Answers payload c response c'
    make_request_iff c response c' =
        (λ (fuel, p). make_request_sound fuel c response c' p, make_request_complete)
