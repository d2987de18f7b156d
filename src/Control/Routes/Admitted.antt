-- ===== src/Control/Routes/Admitted.antt =====
-- Which requests the handlers of apps/control-plane/src/routes.rs let through.
use fanzloud.Base.{
  ℕ, ◌<◌, ◌≡◌, refl, ap, ◌∙◌, sym, subst, true, List, Result, ok, err, ◌>>◌, >>-eq-ok, arith,
  u64_max,
}
use fanzloud.Control.Request.{ApiError, RequestIdentity}
use fanzloud.Control.Cookie.{Headers, parse_cookie}
use fanzloud.Control.AppSessions.{AppSessionRegistry, AppSessionLease, authenticate_cookie}
use fanzloud.Control.AppSessions.Sound.{IsSound}
use fanzloud.Control.AppSessions.Access.{authenticate_cookie_exact}
use fanzloud.Control.AppSessions.Pruned.{Any, Opens}
use fanzloud.Control.Lifecycle.{LifecycleState, is_running, admit, drop_operation}
use fanzloud.Control.Mutation.{Mutation}
use fanzloud.Control.Http.{
  Method, Request, ensure_request_method, validate_headers, validate_origin, parse_idempotency_key,
  parse_instance, read_empty,
}
use fanzloud.Control.Routes.{
  Settings, Shared, drop_lease, drop_admission, admit_lease, admit_authenticated, admit_request,
  settle, with_admitted, mutation_checks, require_running, prepare_protected_mutation,
  PreparedMutation, empty_mutation, prepare_empty_mutation,
}

with_admitted-ok {κ} :
    {A : Type κ} (admitted : Shared × Result ApiError AppSessionLease)
    (rest : AppSessionLease → Result ApiError A) (s : Shared) (a : A)
    → with_admitted admitted rest ≡ (s, ok a)
    → (lease : AppSessionLease) × (admitted ≡ (s, ok lease)) × (rest lease ≡ ok a)
with_admitted-ok (s', err error) rest s a e = cc
with_admitted-ok (s', ok lease) rest s a e = (lease, ground arith, ground arith)

admit_lease-ok :
    (s s' : Shared) (given lease : AppSessionLease)
    (admitted : LifecycleState × Result ApiError (Unit {0}))
    → admit_lease s given admitted ≡ (s', ok lease)
    → (given ≡ lease) × (admitted.1 ≡ ok tt)
admit_lease-ok s s' given lease (lifecycle, ok u) e = (ground arith, refl)
admit_lease-ok s s' given lease (lifecycle, err error) e = cc

admit_authenticated-ok :
    (s s' : Shared) (lease : AppSessionLease)
    (authenticated : AppSessionRegistry × Result ApiError AppSessionLease)
    → admit_authenticated s authenticated ≡ (s', ok lease)
    → (authenticated.1 ≡ ok lease) × ((admit s.lifecycle).1 ≡ ok tt)
admit_authenticated-ok s s' lease (sessions, err error) e = cc
admit_authenticated-ok s s' lease (sessions, ok given) e =
    let (same, admitted) =
      admit_lease-ok (record s { app_sessions = sessions }) s' given lease (admit s.lifecycle) e in
    (ap ok same, admitted)

admit_request-ok :
    (s s' : Shared) (headers : Headers) (now : ℕ) (checks : Result ApiError (Unit {0}))
    (lease : AppSessionLease)
    → admit_request s headers now checks ≡ (s', ok lease)
    → (checks ≡ ok tt)
      × ((authenticate_cookie s.app_sessions headers now).1 ≡ ok lease)
      × ((admit s.lifecycle).1 ≡ ok tt)
unfolding admit_request
admit_request-ok s s' headers now (err error) lease e = cc
admit_request-ok s s' headers now (ok u) lease e =
    let (authenticated, admitted) =
      admit_authenticated-ok s s' lease (authenticate_cookie s.app_sessions headers now) e in
    (refl, authenticated, admitted)

-- The request itself: its method, its headers, its origin, the instance and the key that it names, and
-- its body.
pub record IsProper (settings : Settings) (request : Request) (method : Method) (key : ℕ)
    (identity : RequestIdentity) : Type 0 where
  pub method_fits : ensure_request_method request method ≡ ok tt
  pub headers_fit : validate_headers request.headers ≡ ok tt
  pub origin_fits : validate_origin settings.config request.headers ≡ ok tt
  pub of_instance :
      parse_instance settings.parse_uuid settings.identity request.headers ≡ ok identity.instance_id
  pub has_key : parse_idempotency_key settings.parse_uuid request.headers ≡ ok key
  pub has_body : read_empty request ≡ ok identity.body

checks-ok :
    (s : Shared) (request : Request) (method : Method)
    → mutation_checks s request method ≡ ok tt
    → (is_running s.lifecycle ≡ true)
      × (ensure_request_method request method ≡ ok tt)
      × (validate_headers request.headers ≡ ok tt)
checks-ok s request method e =
    let (runs, rest) = >>-eq-ok (require_running s) _ e in
    let (fits, headers) = >>-eq-ok (ensure_request_method request method) _ rest in
    (ground (arith, runs), fits, headers)

empty_mutation-ok :
    (settings : Settings) (request : Request) (method : Method) (route : List ℕ)
    (build : AppSessionLease → Mutation) (at : ℕ) (lease : AppSessionLease) (p : PreparedMutation)
    → empty_mutation settings request method route build at lease ≡ ok p
    → (parse_instance settings.parse_uuid settings.identity request.headers
        ≡ ok p.identity.instance_id)
      × (parse_idempotency_key settings.parse_uuid request.headers ≡ ok p.key)
      × (read_empty request ≡ ok p.identity.body)
      × (p.mutation ≡ build lease)
      × (p.lease ≡ lease)
empty_mutation-ok settings request method route build at lease p e = ground arith

-- A request without a body gets as far as the registry of idempotent requests only when the control
-- plane runs, its method, headers and origin are right, it names this instance and a key, its body is
-- empty, and its cookie is that of a session that is neither invalidated nor expired; the mutation is
-- then the handler's for the lease of that session.
pub prepare_empty_mutation_requires :
    (settings : Settings) (s s' : Shared) (request : Request) (method : Method) (route : List ℕ)
    (build : AppSessionLease → Mutation) (now at : ℕ) (p : PreparedMutation)
    → IsSound s.app_sessions
    → prepare_empty_mutation settings s request method route build now at ≡ (s', ok p)
    → (is_running s.lifecycle ≡ true)
      × IsProper settings request method p.key p.identity
      × (p.mutation ≡ build p.lease)
      × (p.lease.token ≡ (parse_cookie request.headers).0)
      × Any
          (Opens (parse_cookie request.headers).0 now p.lease.issuance_seq)
          s.app_sessions.sessions
unfolding prepare_empty_mutation prepare_protected_mutation
prepare_empty_mutation_requires settings s s' request method route build now at p sound e =
    let (lease, admitted, built) =
      with_admitted-ok (prepare_protected_mutation settings s request method now)
        (empty_mutation settings request method route build at) s' p e in
    let (given, let_in, origin) =
      with_admitted-ok (admit_request s request.headers now (mutation_checks s request method))
        (λ l. validate_origin settings.config request.headers >> ok l) s' lease admitted in
    let (fits, same) = >>-eq-ok (validate_origin settings.config request.headers) _ origin in
    let (checks, authenticated, active) =
      admit_request-ok s s' request.headers now (mutation_checks s request method) given let_in in
    let (runs, method_fits, headers_fit) = checks-ok s request method checks in
    let (instance_id, key, body, mutation, own) =
      empty_mutation-ok settings request method route build at lease p built in
    let (well_formed, token, any) =
      (authenticate_cookie_exact s.app_sessions request.headers now given sound).0 authenticated in
    let leased : p.lease ≡ given = ground (arith, own, same) in
    (
      runs,
      record {
        method_fits = method_fits;
        headers_fit = headers_fit;
        origin_fits = fits;
        of_instance = instance_id;
        has_key = key;
        has_body = body;
      },
      mutation ∙ ap build (sym own),
      ap (λ (l : AppSessionLease). l.token) leased ∙ token,
      subst
          (λ (l : AppSessionLease).
            Any (Opens (parse_cookie request.headers).0 now l.issuance_seq) s.app_sessions.sessions)
          (sym leased) any,
    )

-- What was admitted counts as active, and a failure leaves the count as it was.
abbrev pub Restores {κ} : {A : Type κ} → LifecycleState → Shared × Result ApiError A → Type 0
Restores before (s, ok a) = (s.lifecycle ≡ (admit before).0) × ((admit before).1 ≡ ok tt)
Restores before (s, err error) = s.lifecycle ≡ before

module _ (before : LifecycleState) (room : before.active < u64_max) where
  pub drop-admit : (admit before).1 ≡ ok tt → drop_operation (admit before).0 ≡ before
  unfolding drop_operation admit
  drop-admit admitted = ground arith

  pub admitted_drop :
      (s : Shared) (lease : AppSessionLease)
      → s.lifecycle ≡ (admit before).0
      → (admit before).1 ≡ ok tt
      → (drop_admission s lease).lifecycle ≡ before
  unfolding drop_admission drop_lease
  admitted_drop s lease same admitted = ap drop_operation same ∙ drop-admit admitted

  settle-Restores {κ} :
      {A : Type κ} (s : Shared) (lease : AppSessionLease) (given : Result ApiError A)
      → s.lifecycle ≡ (admit before).0
      → (admit before).1 ≡ ok tt
      → Restores before (settle s lease given)
  settle-Restores s lease (ok a) same admitted = (same, admitted)
  settle-Restores s lease (err error) same admitted = admitted_drop s lease same admitted

  pub with_admitted-Restores {κ} :
      {A : Type κ} (admitted : Shared × Result ApiError AppSessionLease)
      (rest : AppSessionLease → Result ApiError A)
      → Restores before admitted
      → Restores before (with_admitted admitted rest)
  with_admitted-Restores (s, err error) rest h = h
  with_admitted-Restores (s, ok lease) rest h = settle-Restores s lease (rest lease) h.0 h.1

  lease-Restores :
      (s : Shared) (lease : AppSessionLease)
      (admitted : LifecycleState × Result ApiError (Unit {0}))
      → s.lifecycle ≡ before
      → admit before ≡ admitted
      → Restores before (admit_lease s lease admitted)
  unfolding drop_lease
  lease-Restores s lease (lifecycle, ok u) same e = (
    sym (ap (λ (x : LifecycleState × Result ApiError (Unit {0})). x.0) e),
    ap (λ (x : LifecycleState × Result ApiError (Unit {0})). x.1) e,
  )
  lease-Restores s lease (lifecycle, err error) same e = same

  authenticated-Restores :
      (s : Shared) (authenticated : AppSessionRegistry × Result ApiError AppSessionLease)
      → s.lifecycle ≡ before
      → Restores before (admit_authenticated s authenticated)
  authenticated-Restores s (sessions, err error) same = same
  authenticated-Restores s (sessions, ok lease) same =
      lease-Restores (record s { app_sessions = sessions }) lease (admit s.lifecycle) same
        (ap admit (sym same))

  pub request-Restores :
      (s : Shared) (headers : Headers) (now : ℕ) (checks : Result ApiError (Unit {0}))
      → s.lifecycle ≡ before
      → Restores before (admit_request s headers now checks)
  unfolding admit_request
  request-Restores s headers now (err error) same = same
  request-Restores s headers now (ok u) same =
      authenticated-Restores s (authenticate_cookie s.app_sessions headers now) same
