-- ===== src/Client/Recovery.antt =====
-- How long a request takes, and the statuses that it sends.
use lact.Prelude.{
  ℕ, zero, suc, ◌≤◌, ◌<◌, String, ◌≡◌, refl, ap, ◌∙◌, some, List, ◌∷◌, arith, inl, inr,
}
use lact.Prelude.Exec.{Error, Result-cases, ok, err}
use lact.Client.{
  Status, disconnected, reconnected, Network, DaemonClient, lose, replace, reconnect, make_request,
}
use lact.Client.Protocol.{
  Reconnects, at_once, retry, Answers, answered, lost, connecting, still_lost, asking,
  make_request_iff,
}

-- The statuses of a number of losses, each with its end.
abbrev pub after_losses : ℕ → List Status → List Status
after_losses zero sent = sent
after_losses (suc n) sent = after_losses n (reconnected ∷ disconnected ∷ sent)

module _ {Connection World : Type 0} (net : Network Connection World) where
  reconnected_last :
      {c c' : DaemonClient Connection World} → Reconnects net c c' → c'.sent ≡ reconnected ∷ c.sent
  reconnected_last (at_once connection e q) = ground arith
  reconnected_last (retry e q r) = reconnected_last r

  Answers-sent :
      {payload : String} {c : DaemonClient Connection World} {response : String}
      {c' : DaemonClient Connection World}
      → Answers net payload c response c'
      → (n : ℕ) × (c'.sent ≡ after_losses n c.sent)
  Answers-sent (answered e q) = (0, ground arith)
  Answers-sent (lost again e q r a) =
      let (n, p) = Answers-sent a in (suc n, p ∙ ap (after_losses n) (reconnected_last r))

  -- When `make_request` returns, it has sent the status `Disconnected` and then `Reconnected`, once
  -- for each time that the connection was lost, and no other.
  make_request_sent :
      (fuel : ℕ) (payload : String) (c : DaemonClient Connection World) (response : String)
      (c' : DaemonClient Connection World)
      → make_request net fuel payload c ≡ some (response, c')
      → (n : ℕ) × (c'.sent ≡ after_losses n c.sent)
  make_request_sent fuel payload c response c' p =
      Answers-sent ((make_request_iff net payload c response c').0 (fuel, p))

  -- The connection after some losses: the one before, or one that was made anew.
  abbrev pub IsFresh : ℕ → Connection → Connection → Type 0
  IsFresh zero old new = new ≡ old
  IsFresh (suc n) old new = (s : Connection) × (w : World) × ((net.new_connection s w).0 ≡ ok new)

  -- What an answered request leaves.
  abbrev pub IsAnswered :
      String → DaemonClient Connection World → String → DaemonClient Connection World → Type 0
  IsAnswered payload c response c' =
      (n : ℕ) × (w : World) × (net.request c'.stream payload w ≡ (ok response, c'.world))
      × (c'.sent ≡ after_losses n c.sent)
      × IsFresh n c.stream c'.stream

  -- `left` bounds the failures that the network still has in it.
  record Recovers (left : World → ℕ) : Type 0 where
    losing :
        (s : Connection) (payload : String) (w : World) (e : Error)
        → (net.request s payload w).0 ≡ err e
        → left (net.request s payload w).1 < left w
    failing :
        (s : Connection) (w : World) (e : Error)
        → (net.new_connection s w).0 ≡ err e
        → left (net.new_connection s w).1 < left w
    connected :
        (s s' : Connection) (w : World)
        → (net.new_connection s w).0 ≡ ok s'
        → left (net.new_connection s w).1 ≤ left w

  module _ (left : World → ℕ) (recovers : Recovers left) where
    reconnect_returns :
        (fuel : ℕ) (c : DaemonClient Connection World)
        → left c.world < fuel
        → (c' : DaemonClient Connection World) × (reconnect net fuel c ≡ some c')
          × (left c'.world ≤ left c.world)
    unfolding reconnect
    reconnect_returns zero c h = absurd (omega arith)
    reconnect_returns (suc fuel) c h = elim (Result-cases (connecting net c).0) [
      | inl (s, e) ↦ (
        replace net s (connecting net c).1 c,
        rw (e, reconnect) refl,
        recovers.connected c.stream s c.world e,
      )
      | inr (e, q) ↦
          let less = recovers.failing c.stream c.world e q in
          let (c', p, bound) = reconnect_returns fuel (still_lost net c) (omega arith) in
          (c', rw (q, reconnect) p, omega arith)
    ]

    -- Where a measure of the network falls at every request and every connection that fails, and
    -- does not grow at a connection that succeeds: `make_request` returns with every fuel above the
    -- measure.
    make_request_returns :
        (fuel : ℕ) (payload : String) (c : DaemonClient Connection World)
        → left c.world < fuel
        → (answer : String × DaemonClient Connection World) × (make_request net fuel payload c
            ≡ some answer)
    unfolding make_request
    make_request_returns zero payload c h = absurd (omega arith)
    make_request_returns (suc fuel) payload c h = elim (Result-cases (asking net payload c).0) [
      | inl (response, e) ↦
          ((response, record c { world = (asking net payload c).1 }), rw (e, make_request) refl)
      | inr (e, q) ↦
          let less = recovers.losing c.stream payload c.world e q in
          let (again, found, bound) =
            reconnect_returns fuel (lose net (asking net payload c).1 c) (omega arith) in
          let (answer, p) = make_request_returns fuel payload again (omega arith) in
          (answer, rw (q, make_request) (rw found p))
    ]
