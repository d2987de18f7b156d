-- ===== src/Control/Routes/Run.antt =====
-- `run_prepared` of apps/control-plane/src/routes.rs: a request that is prepared, up to its response.
use fanzloud.Base.{Bool, true, false, Option, none, some, Result, ok, err}
use fanzloud.Control.Request.{ApiError, CachedResponse}
use fanzloud.Control.Registry.{Registry, WaitState, release_auth_session, complete, take_response}
use fanzloud.Control.Registry as Idempotency
use fanzloud.Control.ApiErrors.{service_unavailable}
use fanzloud.Control.Transport.{error_response}
use fanzloud.Control.AppSessions.{AppSessionLease}
use fanzloud.Control.Mutation.{Ports, execute_mutation}
use fanzloud.Control.Routes.{Shared, drop_admission, PreparedMutation}

module _ {W : Type 0} (ports : Ports W) where
  -- The state, that behind the ports, and the response; none where the request waits for another.
  abbrev pub Served : Type 0
  Served = Shared × W × Option CachedResponse

  abbrev pub refuse : Shared → W → ApiError → Served
  refuse s w error = (s, w, some (error_response ports.error_to_vec error))

  abbrev pub respond : Shared → W → AppSessionLease → Registry × WaitState → Served
  respond s w lease (r, WaitState.pending) = (record s { idempotency = r }, w, none)
  respond s w lease (r, WaitState.ready response) =
      (drop_admission (record s { idempotency = r }) lease, w, some response)
  respond s w lease (r, WaitState.missing) =
      refuse (drop_admission (record s { idempotency = r }) lease) w service_unavailable

  abbrev pub execute : Shared → W → PreparedMutation → Shared × W
  execute s w p =
      let done = execute_mutation ports s.app_sessions w p.mutation p.admitted_at in
      (
        record s {
          app_sessions = done.0;
          idempotency = complete s.idempotency p.key done.2.0 done.2.1;
        },
        done.1,
      )

  abbrev pub run_admitted : Shared → W → PreparedMutation → Registry × Result ApiError Bool → Served
  run_admitted s w p (r, err error) =
      refuse (drop_admission (record s { idempotency = r }) p.lease) w error
  run_admitted s w p (r, ok false) =
      respond (record s { idempotency = r }) w p.lease (take_response r p.key)
  run_admitted s w p (r, ok true) =
      let done = execute (record s { idempotency = r }) w p in
      respond done.0 done.1 p.lease (take_response done.0.idempotency p.key)

  unfoldable pub run_prepared : W → Shared × Result ApiError PreparedMutation → Served
  run_prepared w (s, err error) = refuse s w error
  run_prepared w (s, ok p) =
      run_admitted s w p (Idempotency.admit s.idempotency p.key p.identity p.admitted_at)
