-- ===== src/Client.antt =====
-- lact-client/src/lib.rs: the daemon's client, which connects again when its connection fails.
pub mod Protocol
pub mod Recovery
pub mod Api
pub mod Resend
use lact.Prelude.{ℕ, zero, suc, String, Option, none, some, List, [], ◌∷◌}
use lact.Prelude.Exec.{Exec, Error, context, Result, ok, err, with_context}

-- `ConnectionStatusMsg`
pub data Status : Type 0 where
  disconnected reconnected : Status

-- `DaemonConnection`: a request on a connection, and a new connection to the same peer.
pub record Network (Connection World : Type 0) : Type 0 where
  pub request : Connection → String → Exec World String
  pub new_connection : Connection → Exec World Connection

-- `DaemonClient`, with the statuses that it has sent, the newest first.
pub record DaemonClient (Connection World : Type 0) : Type 0 where
  pub stream : Connection
  pub sent : List Status
  pub world : World

module _ {Connection World : Type 0} (net : Network Connection World) where
  -- After a request that failed: its end in the world, and the status that is sent.
  abbrev pub lose : World → DaemonClient Connection World → DaemonClient Connection World
  lose w c = record c { sent = disconnected ∷ c.sent; world = w }

  abbrev pub replace :
      Connection → World → DaemonClient Connection World → DaemonClient Connection World
  replace connection w c = record c { stream = connection; sent = reconnected ∷ c.sent; world = w }

  -- The inner `loop`, which tries again after every failure.
  unfoldable pub reconnect :
      ℕ → DaemonClient Connection World → Option (DaemonClient Connection World)
  reconnect zero c = none
  reconnect (suc fuel) c =
      let (answer, w) = net.new_connection c.stream c.world in
      elim answer [
        | ok connection ↦ some (replace connection w c)
        | err e ↦ reconnect fuel (record c { world = w })
      ]

  -- `make_request` of a request that is serialized already; `none` is that the fuel ran out.
  unfoldable pub make_request :
      ℕ → String → DaemonClient Connection World → Option (String × DaemonClient Connection World)
  unfolding reconnect
  make_request zero payload c = none
  make_request (suc fuel) payload c =
      let (answer, w) = net.request c.stream payload c.world in
      elim answer [
        | ok response ↦ some (response, record c { world = w })
        | err e ↦ elim (reconnect fuel (lose w c)) [
          | none ↦ none
          | some c' ↦ make_request fuel payload c'
        ]
      ]
