-- ===== src/Tests/Clients.antt =====
-- The examples of the client: one that asks a daemon over `fixed`, and a network that fails twice.
use lact.Prelude.{ℕ, zero, suc, String, ◌≡◌, ◌↔◌, refl, some, [], ◌∷◌, str_eq, if◌then◌else◌}
use lact.Prelude.Exec.{Exec, Error, msg, context, Result, ok, err}
use lact.Platform.Fixed.{fixed}
use lact.Schema.{Request}
use lact.Handler.State.{find_controller, controller_by_id}
use lact.Server.{Response, success, failure, Payload, handle_request, to_response}
use lact.Client.{disconnected, reconnected, Network, DaemonClient, reconnect, make_request}
use lact.Handler.Edit.{
  unconfirmed_pending, edit_gpu_config, refuse_if_pending, after_apply, wait_config_confirm,
}
use lact.Handler.Settings.{set_power_cap}
use lact.Config.{gpus}
use lact.Prelude.Dict.{get}
use lact.Client.Protocol.{Answers, make_request_iff}
use lact.Client.Api.{Wire, call}
use lact.Client.Resend.{link, Client, reported, call_once, edit_resent}
use lact.Tests.Requests.{system}
use lact.Tests.Fixtures.{env, config, daemon}

-- A number of failures that are left, whatever is asked.
abbrev answer_after : {A : Type 0} → A → Exec ℕ A
answer_after a zero = (ok a, zero)
answer_after a (suc n) = (err (msg "failed"), n)

-- Connections are numbered.
abbrev failing : Network ℕ ℕ
failing = record {
  request = λ s payload. answer_after "pong";
  new_connection = λ s. answer_after (suc s);
}

abbrev client : DaemonClient ℕ ℕ
client = record { stream = 0; sent = []; world = 2 }

-- The request was lost, and then a new connection was refused.
abbrev client_after : DaemonClient ℕ ℕ
client_after = record { stream = 1; sent = reconnected ∷ disconnected ∷ []; world = 0 }

recovered : make_request failing 3 "ping" client ≡ some ("pong", client_after)
unfolding make_request reconnect
recovered = refl

make_request_iff_example :
    ((fuel : ℕ) × (make_request failing fuel "ping" client ≡ some ("pong", client_after)))
    ↔ Answers failing "ping" client "pong" client_after
make_request_iff_example = make_request_iff failing "ping" client "pong" client_after

is_answered : Answers failing "ping" client "pong" client_after
is_answered = (make_request_iff failing "ping" client "pong" client_after).0 (3, recovered)

-- The only request that is written is the change of the power limit.
abbrev wire : Wire env
wire = record {
  write_request = λ r. ok "cap";
  read_response = λ line.
      if str_eq line "Ok"
      then ok (success (Payload.timer 5))
      else ok (failure (context "Failed to edit GPU config and set power cap" unconfirmed_pending));
}

abbrev cap_request : Request fixed
cap_request = Request.set_power_cap "gpu" (some 150)

abbrev parse_cap : String → Result (Request fixed)
parse_cap line = if str_eq line "cap" then ok cap_request else err (msg "unknown")

abbrev print : Response env → String
print (success payload) = "Ok"
print (failure e) = "Error"

call_once_example :
    call wire
      (link system wire parse_cap print)
      1
      cap_request
      (record { stream = tt; sent = []; world = (daemon config, 0) })
    ≡ some (
      reported system wire parse_cap print
          (handle_request env system cap_request (daemon config)).0,
      record {
        stream = tt;
        sent = [];
        world = ((handle_request env system cap_request (daemon config)).1, 0);
      },
    )
unfolding handle_request set_power_cap edit_gpu_config to_response refuse_if_pending after_apply
    wait_config_confirm gpus get controller_by_id find_controller
call_once_example =
    call_once system wire parse_cap print cap_request ("cap", refl, refl) 0 (daemon config) [] refl

edit_resent_example :
    (e : Error) × (c : Client system wire parse_cap print) × (call wire
        (link system wire parse_cap print)
        2
        cap_request
        (record { stream = tt; sent = []; world = (daemon config, 1) })
      ≡ some (err e, c))
    × (c.world.0.confirm_config_tx ≡ some 7)
unfolding handle_request set_power_cap edit_gpu_config to_response refuse_if_pending after_apply
    wait_config_confirm gpus get controller_by_id find_controller
edit_resent_example =
    edit_resent system wire parse_cap print cap_request 0 (daemon config) [] 7 ("cap", refl, refl)
      refl refl refl
