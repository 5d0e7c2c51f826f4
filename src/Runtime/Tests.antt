-- ===== src/Runtime/Tests.antt =====
-- An execution whose credentials are refused once, refreshed, and then accepted.
use provider_core.Prelude.{
  ℕ, ◌≡◌, refl, true, false, none, some, [], ◌∷◌, ◌==◌, if◌then◌else◌, codes,
}
use provider_core.Prelude.Results.{ok, err}
use provider_core.Router.Accounts.{open_ai_responses}
use provider_core.Proxy.Errors.{ProviderErrorKind, ProviderError, new_error}
use provider_core.Proxy.Execution.{ProviderRequest}
use provider_core.Runtime.Entry.{
  Account, called, begun, refreshed, stream_opened, failed, execute_entry,
}
use provider_core.Runtime.Entry.Attempts.{Settles, execute_entry-Settles}

abbrev expired : ProviderError
expired = record (new_error ProviderErrorKind.authentication (codes "expired")) {
  upstream_status = some 401;
}

abbrev account : Account
account = record {
  Stream = ℕ;
  acquire = none;
  execute_stream = λ n r. if n == 0 then err expired else ok 7;
  retry_request = λ r hint. ok none;
  refresh = none;
  begin_attempt = λ n. true;
}

abbrev request : ProviderRequest
request = record {
  format = open_ai_responses;
  model = codes "m";
  payload = [];
  metadata = record {
    session_id = none;
    opencode_session_id = none;
    thread_id = none;
    client_request_id = none;
    routing_session_id = none;
    responses_lite = false;
    routing_scope = none;
    previous_response_id = none;
  };
}

two_attempts :
    (execute_entry account request).events
    ≡ begun 0
      ∷ called 0
      ∷ refreshed
      ∷ failed 0 true none
      ∷ begun 1
      ∷ called 1
      ∷ stream_opened 1
      ∷ []
unfolding execute_entry
two_attempts = refl

execute_entry-Settles_example : Settles account [] 2 (execute_entry account request)
execute_entry-Settles_example = execute_entry-Settles account request
