-- ===== src/Control/Routes/Examples.antt =====
-- Requests to the handlers of apps/control-plane/src/routes.rs, and the theorems at them.
use fanzloud.Base.{ℕ, ◌≡◌, refl, true, false, some, none, List, [], ◌∷◌, ok, arith}
use fanzloud.Session.Examples.{inner}
use fanzloud.Control.Bytes.{codes}
use fanzloud.Control.Bytes.{fixed_token_eq, fixed_token_compare, compare_from}
use fanzloud.Control.Request.{
  bytes_eq, identity_eq, idempotency_conflict, request_storage_bytes, response_storage_bytes,
}
use fanzloud.Control.HttpConfig.{min_session_lifetime, matches_header, padded, trim_start, trim_end}
use fanzloud.Control.Cookie.{
  parse_cookie, take_values, take_parts, take_part, split, split_once, get_all, single_header,
}
use fanzloud.Control.Cookie.Parsed.{own_pair}
use fanzloud.Control.Registry.{Registry, new_registry, new_entry}
use fanzloud.Control.Registry as Idempotency
use fanzloud.Control.Registry.Operations.{new_registry-IsValid}
use fanzloud.Control.Entries.{retain, find, keys_of}
use fanzloud.Control.AppSessions.{
  authenticate_cookie, matched_from, prune_expired, sort_by_seq, insert_by_seq, retain_all,
  expire_all, at_index,
}
use fanzloud.Control.AppSessions.Issue.{new_session}
use fanzloud.Control.AppSessions.Pruned.{Any, Opens}
use fanzloud.Control.AppSessions.Examples.{token, codec, one, one-IsSound, lease}
use fanzloud.Control.Lifecycle.{running, is_running, admit}
use fanzloud.Control.Mutation.{cancel_turn, execute_mutation, try_execute_mutation}
use fanzloud.Control.Transport.{json, common_headers, error_response}
use fanzloud.Control.Mutation.Examples.{ports}
use fanzloud.Control.Http.{
  post, Request, ensure_request_method, validate_headers, validate_origin, parse_instance,
  parse_idempotency_key, read_empty, read_bounded_body, validate_empty_content_type,
}
use fanzloud.Control.Routes.{
  Settings, Shared, PreparedMutation, admit_request, prepare_protected_mutation,
  prepare_empty_mutation,
}
use fanzloud.Control.Routes.Run.{run_prepared}
use fanzloud.Control.Routes.Admitted.{IsProper, prepare_empty_mutation_requires}
use fanzloud.Control.Routes.Handlers.{Parsers, abandon_body}
use fanzloud.Control.Routes.Executed.{run_prepared_again, run_prepared_answers}

abbrev settings : Settings
settings = record {
  config = record {
    public_origin = codes "https://box.test";
    bootstrap = record { bytes = []; len = 0 };
    session_lifetime = min_session_lifetime;
  };
  identity = inner.identity;
  -- The identifiers in these requests have one digit.
  parse_uuid = λ text. elim text [ [] ↦ none | byte ∷ bytes ↦ some byte ];
  codec = codec;
}

abbrev shared : Shared
shared = record {
  app_sessions = one;
  idempotency = new_registry;
  lifecycle = record { phase = running; active = 0 };
}

abbrev request : Request
request = record {
  method = post;
  headers =
      (codes "cookie", own_pair token)
      ∷ (codes "origin", codes "https://box.test")
      ∷ (codes "codebox-instance-id", 12 ∷ [])
      ∷ (codes "idempotency-key", codes "7")
      ∷ [];
  body = some [];
}

abbrev route : List ℕ
route = codes "/api/p0/session/cancel"

abbrev prepared : PreparedMutation
prepared = record {
  key = b'7';
  identity = record {
    method = codes "POST";
    route = route;
    body = [];
    instance_id = 12;
    logout_session_seq = none;
  };
  mutation = cancel_turn;
  admitted_at = 10;
  lease = lease;
}

-- The session has another request, and an operation is active.
abbrev admitted : Shared
admitted = record shared {
  app_sessions = record {
    sessions = record (new_session token 1000 1) { active_requests = 2 } ∷ [];
    issuance_seq = 1;
  };
  lifecycle = record { phase = running; active = 1 };
}

is_prepared :
    prepare_empty_mutation settings shared request post route (λ given. cancel_turn) 10 10
    ≡ (admitted, ok prepared)
unfolding prepare_empty_mutation prepare_protected_mutation admit_request authenticate_cookie
    matched_from prune_expired sort_by_seq insert_by_seq retain_all expire_all at_index parse_cookie
    take_values take_parts take_part split split_once get_all bytes_eq trim_start trim_end padded
    fixed_token_eq fixed_token_compare compare_from is_running admit ensure_request_method
    validate_headers validate_origin single_header matches_header parse_instance
    parse_idempotency_key read_empty read_bounded_body validate_empty_content_type
is_prepared = refl

prepare_empty_mutation_requires_example :
    (is_running shared.lifecycle ≡ true)
    × IsProper settings request post prepared.key prepared.identity
    × (prepared.mutation ≡ cancel_turn)
    × (prepared.lease.token ≡ (parse_cookie request.headers).0)
    × Any
        (Opens (parse_cookie request.headers).0 10 prepared.lease.issuance_seq)
        shared.app_sessions.sessions
prepare_empty_mutation_requires_example =
    prepare_empty_mutation_requires settings shared admitted request post route
      (λ given. cancel_turn) 10 10 prepared one-IsSound is_prepared

abbrev parsers : Parsers
parsers = record {
  turn_body = λ body. ok "task";
  resolve_body = λ body. ok (record { operation_id = none; decision = abandon_body none });
}

abbrev owned : Registry
owned = record {
  entries = (b'7', new_entry prepared.identity) ∷ [];
  total_bytes = 90;
  completion_seq = 0;
}

is_owner : Idempotency.admit new_registry b'7' prepared.identity 10 ≡ (owned, ok true)
unfolding Idempotency.admit Idempotency.admit_found find Idempotency.prune_expired
    Idempotency.remove_all keys_of Idempotency.make_capacity Idempotency.capacity_loop
    request_storage_bytes
is_owner = refl

response_is_retained : (execute_mutation ports one 0 prepared.mutation 10).2.1 ≡ retain
unfolding execute_mutation try_execute_mutation json common_headers
response_is_retained = refl

response_size : response_storage_bytes (execute_mutation ports one 0 prepared.mutation 10).2.0 ≡ 144
unfolding response_storage_bytes execute_mutation try_execute_mutation json common_headers
response_size = refl

run_prepared_answers_example :
    (run_prepared ports 0 (shared, ok prepared)).2
    ≡ some (execute_mutation ports one 0 prepared.mutation 10).2.0
run_prepared_answers_example =
    run_prepared_answers ports 0 shared prepared owned new_registry-IsValid is_owner
      (omega (arith, response_size))

-- The state after that request, with a later one that has the same key.
abbrev answered : Shared
answered = (run_prepared ports 0 (shared, ok prepared)).0

run_prepared_again_example :
    ((run_prepared ports 5 (answered, ok prepared)).1 ≡ 5)
    × (identity_eq prepared.identity prepared.identity ≡ true
        → (run_prepared ports 5 (answered, ok prepared)).2
          ≡ some (execute_mutation ports one 0 prepared.mutation 10).2.0)
    × (identity_eq prepared.identity prepared.identity ≡ false
        → (run_prepared ports 5 (answered, ok prepared)).2
          ≡ some (error_response ports.error_to_vec idempotency_conflict))
run_prepared_again_example =
    run_prepared_again ports 0 5 shared answered prepared prepared owned new_registry-IsValid
      is_owner refl refl response_is_retained (omega (arith, response_size))
