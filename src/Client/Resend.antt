-- ===== src/Client/Resend.antt =====
-- The client and the daemon together: over a connection that holds, and over one that is lost while
-- the answer is on its way.
use lact.Prelude.{ℕ, zero, suc, String, ◌≡◌, refl, ap, ◌∙◌, true, some, List, ◌∷◌, arith, inl, inr}
use lact.Prelude.Exec.{Error, msg, context, Result, Result-cases, ok, err}
use lact.Schema.{Request}
use lact.Handler.State.{Env, Handler}
use lact.Server.{
  System, Payload, Response, handle_request, handle_line, handle_line_lem, to_response,
}
use lact.Server.Pending.{is_edit, edits_refused}
use lact.Client.{Status, disconnected, reconnected, Network, DaemonClient, make_request, reconnect}
use lact.Client.Api.{Wire, inner, call}

module _ {E : Env} (system : System E) (wire : Wire E)
    (parse : String → Result (Request E.platform)) (print : Response E → String) where
  -- The daemon at the other end, and how many answers will be lost on their way.
  abbrev pub Link : Type 0
  Link = Handler E × ℕ

  abbrev serve : String → Link → Response E × Handler E
  serve payload (h, n) = handle_line E system parse payload h

  abbrev deliver : String → ℕ → Response E × Handler E → Result String × Link
  deliver payload zero (response, h) = (ok (print response), (h, 0))
  deliver payload (suc n) (response, h) = (err (msg "Connection reset by peer"), (h, n))

  -- The daemon carries the request out before the answer is lost.
  abbrev pub link : Network (Unit {0}) Link
  link = record {
    request = λ s payload l. deliver payload l.1 (serve payload l);
    new_connection = λ s l. (ok tt, l);
  }

  -- The daemon reads the request that the client wrote, and the client the daemon's answer.
  abbrev pub Writes : Request E.platform → Type 0
  Writes r = (payload : String) × (wire.write_request r ≡ ok payload) × (parse payload ≡ ok r)

  abbrev pub Reads : Result (Payload E) → Type 0
  Reads r = wire.read_response (print (to_response E system r)) ≡ ok (to_response E system r)

  abbrev pub Client : Type 0
  Client = DaemonClient (Unit {0}) Link

  -- The answer of the daemon, as the client reports it.
  abbrev pub reported : Result (Payload E) → Result (Payload E)
  reported (ok payload) = ok payload
  reported (err e) = err (context "Got error from daemon, end of client boundary" e)

  module _ (request : Request E.platform) (writes : Writes request) (fuel : ℕ) (h : Handler E)
      (sent : List Status) where
    abbrev client : ℕ → Client
    client losses = record { stream = tt; sent = sent; world = (h, losses) }

    abbrev once : Result (Payload E) × Handler E
    once = handle_request E system request h

    served :
        (payload : String) (k : Handler E) (n : ℕ)
        → parse payload ≡ ok request
        → serve payload (k, n) ≡ (
          to_response E system (handle_request E system request k).0,
          (handle_request E system request k).1,
        )
    served payload k n p = handle_line_lem E system parse payload request k p

    inner-print :
        (r : Result (Payload E))
        → Reads r
        → inner wire (print (to_response E system r)) ≡ reported r
    unfolding inner to_response
    inner-print (ok payload) reads = rw (reads, inner) refl
    inner-print (err e) reads = rw (reads, inner) refl

    -- Over a connection that holds, where the daemon reads the request that was written and the
    -- client reads the daemon's answer: a method of the client returns what `handle_request`
    -- returns, an error with one more context, leaves the daemon as `handle_request` leaves it, and
    -- sends no status.
    pub call_once :
        Reads once.0
        → call wire link (suc fuel) request (client 0)
          ≡ some (reported once.0, record (client 0) { world = (once.1, 0) })
    unfolding call make_request
    call_once reads =
        let (payload, w, p) = writes in
        rw (w, call) (rw (served payload h 0 p) (rw (inner-print once.0 reads) refl))

    abbrev twice : Result (Payload E) × Handler E
    twice = handle_request E system request once.1

    -- A request whose answer is lost is carried out twice; the client reports the second answer.
    pub call_resent :
        Reads twice.0
        → call wire link (suc (suc fuel)) request (client 1)
          ≡ some (
            reported twice.0,
            record { stream = tt; sent = reconnected ∷ disconnected ∷ sent; world = (twice.1, 0) },
          )
    unfolding call make_request reconnect
    call_resent reads =
        let (payload, w, p) = writes in
        rw (w, call)
          (rw (served payload h 1 p)
            (rw (served payload once.1 0 p) (rw (inner-print twice.0 reads) refl)))

  -- Where the daemon accepts an edit and its answer is lost on the way: the client sends the edit
  -- again, and reports an error, while the edit of the first time stays pending in the daemon under
  -- its channel.
  pub edit_resent :
      (request : Request E.platform) (fuel : ℕ) (h : Handler E) (sent : List Status) (channel : ℕ)
      → Writes request
      → Reads (handle_request E system request (handle_request E system request h).1).0
      → is_edit request ≡ true
      → (handle_request E system request h).1.confirm_config_tx ≡ some channel
      → (e : Error) × (c : Client) × (call wire link
            (suc (suc fuel))
            request
            (record { stream = tt; sent = sent; world = (h, 1) })
          ≡ some (err e, c))
        × (c.world.0.confirm_config_tx ≡ some channel)
  edit_resent request fuel h sent channel writes reads edit accepted =
      let after = (handle_request E system request h).1 in
      let again = handle_request E system request after in
      let refused = edits_refused E system after channel accepted request edit in
      let c : Client = record {
        stream = tt;
        sent = reconnected ∷ disconnected ∷ sent;
        world = (again.1, 0);
      } in
      elim (Result-cases again.0) [
        | inl (payload, p) ↦ absurd (ground arith)
        | inr (e, p) ↦ (
          context "Got error from daemon, end of client boundary" e,
          c,
          call_resent request writes fuel h sent reads ∙ ap (λ r. some (reported r, c)) p,
          refused.1,
        )
      ]
