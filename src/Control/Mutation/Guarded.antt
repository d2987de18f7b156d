-- ===== src/Control/Mutation/Guarded.antt =====
-- What guards the mutations of apps/control-plane/src/state.rs, and how long their responses are kept.
use fanzloud.Base.{
  ℕ, ◌*◌, ◌≤◌, ◌≡◌, ◌≢◌, refl, ap, Bool-cases, List, ◌↔◌, ◌⊎◌, inl, inr, Bool, true, false, Option,
  none, some, String, Result, ok, err, arith, ==_iff,
}
use fanzloud.Cloud.Lifecycle.{
  UnknownSubmitDecision, adopt_listed_task, abandon_after_reconciliation,
}
use fanzloud.Session.Types.{P0CloudLifecycle, P0TurnProjection, P0TurnSnapshot, P0SessionSnapshot}
use fanzloud.Session.Error.{P0SessionError}
use fanzloud.Control.Request.{ApiError, CachedResponse}
use fanzloud.Control.Entries.{retain, expire_at, remove_after_auth_session}
use fanzloud.Control.ApiErrors.{LoginPortError}
use fanzloud.Control.Transport.{json, error_response, empty_logout}
use fanzloud.Control.HttpConfig.{nanos_per_sec}
use fanzloud.Control.AppSessions.{AppSessionRegistry}
use fanzloud.Control.AppSessions.Issue.{checked_add}
use fanzloud.Control.Mutation.{
  Mutation, logout, start_device_login, cancel_login, cancel_turn, reconcile, start_turn, adopt,
  abandon, LoginInstructions, LoginStatus, status_answer, kept_until, login_response, login_answer,
  resolve_checked, Ports, Answer, operation_changed, is_unknown_of, turn_is_unknown_of,
  is_current_unknown, session_answer, retained, or_error, require_current_unknown, resolve_current,
  try_execute_mutation, execute_mutation,
}

-- The current turn is a cloud turn whose operation has an unknown outcome, and is this one.
abbrev pub IsUnknownOf : ℕ → Option P0TurnSnapshot → Type 0
IsUnknownOf operation_id turn =
    (turn_id : ℕ) × (requested : Bool) × (turn
      ≡ some (record {
        turn_id = turn_id;
        projection =
            P0TurnProjection.cloud (P0CloudLifecycle.outcome_unknown operation_id) requested;
      }))

projection_unknown :
    (operation_id : ℕ) (projection : P0TurnProjection)
    → is_unknown_of operation_id projection ≡ true
    → (requested : Bool) × (projection
        ≡ P0TurnProjection.cloud (P0CloudLifecycle.outcome_unknown operation_id) requested)
projection_unknown operation_id
      (P0TurnProjection.cloud (P0CloudLifecycle.outcome_unknown current) requested) e =
    (requested, ground (arith, ==_iff current operation_id))
projection_unknown operation_id projection e = cc

turn_unknown :
    (operation_id : ℕ) (turn : Option P0TurnSnapshot)
    → (turn_is_unknown_of operation_id turn ≡ true) ↔ IsUnknownOf operation_id turn
turn_unknown operation_id none = (λ e. cc, λ h. cc h.2)
turn_unknown operation_id (some turn) = (
  λ e.
      let (requested, is_cloud) = projection_unknown operation_id turn.projection e in
      (turn.turn_id, requested, ground arith),
  λ h. ground (arith, h.2, ==_iff operation_id operation_id),
)

-- The guard of a recovery decision passes exactly when the snapshot's current turn is a cloud turn
-- whose operation has an unknown outcome, and this is the operation that the decision names.
pub is_current_unknown_exact :
    (operation_id : ℕ) (snapshot : P0SessionSnapshot)
    → (is_current_unknown operation_id snapshot ≡ true)
      ↔ IsUnknownOf operation_id snapshot.current_turn
unfolding is_current_unknown
is_current_unknown_exact operation_id snapshot = turn_unknown operation_id snapshot.current_turn

json-status {κ} :
    {A : Type κ} (to_vec : A → Option (List ℕ)) (status : ℕ) (value : A) (response : CachedResponse)
    → json to_vec status value ≡ ok response
    → response.status ≡ status
unfolding json
json-status to_vec status value response e = ground arith

checked_add_later : (a b sum : ℕ) → checked_add a b ≡ some sum → a ≤ sum
unfolding checked_add
checked_add_later a b sum e = ground arith

module _ {W : Type 0} (ports : Ports W) where
  -- Only the snapshot was taken, and the client is told so.
  abbrev pub IsRefused : AppSessionRegistry → W → AppSessionRegistry × W × Answer → Type 0
  IsRefused r w done = done ≡ (r, w, (error_response ports.error_to_vec operation_changed, retain))

  not_current :
      (operation_id : ℕ) (snapshot : P0SessionSnapshot)
      → (IsUnknownOf operation_id snapshot.current_turn → ⊥)
      → is_current_unknown operation_id snapshot ≡ false
  not_current operation_id snapshot h =
      elim (Bool-cases (is_current_unknown operation_id snapshot)) [
        | inl current ↦ absurd (h ((is_current_unknown_exact operation_id snapshot).0 current))
        | inr different ↦ different
      ]

  told : AppSessionRegistry → W × Result ApiError Answer → AppSessionRegistry × W × Answer
  told r (w, result) = (r, w, or_error ports result)

  resolve_refused :
      (w w' : W) (operation_id : ℕ) (decision : UnknownSubmitDecision)
      (snapshot : P0SessionSnapshot)
      → ports.snapshot w ≡ (w', ok snapshot)
      → is_current_unknown operation_id snapshot ≡ false
      → resolve_current ports w operation_id decision ≡ (w', err operation_changed)
  unfolding resolve_current require_current_unknown
  resolve_refused w w' operation_id decision snapshot taken different = ground arith

  resolve_allowed :
      (w w' : W) (operation_id : ℕ) (decision : UnknownSubmitDecision)
      (snapshot : P0SessionSnapshot)
      → ports.snapshot w ≡ (w', ok snapshot)
      → is_current_unknown operation_id snapshot ≡ true
      → resolve_current ports w operation_id decision ≡ (
        (ports.resolve_unknown w' operation_id decision).0,
        session_answer ports.snapshot_to_vec 200 (ports.resolve_unknown w' operation_id decision).1,
      )
  unfolding resolve_current require_current_unknown
  resolve_allowed w w' operation_id decision snapshot taken current = ground arith

  -- A decision on an operation that is not, or no longer, the current one with an unknown outcome is
  -- refused as a conflict: the session is asked for its snapshot and for nothing else, and no
  -- session of an operator changes.
  pub execute_mutation_guarded :
      (r : AppSessionRegistry) (w w' : W) (operation_id admitted_at : ℕ) (task_id : String)
      (snapshot : P0SessionSnapshot)
      → ports.snapshot w ≡ (w', ok snapshot)
      → (IsUnknownOf operation_id snapshot.current_turn → ⊥)
      → IsRefused r w' (execute_mutation ports r w (adopt operation_id task_id) admitted_at)
        × IsRefused r w' (execute_mutation ports r w (abandon operation_id) admitted_at)
  unfolding execute_mutation try_execute_mutation told
  execute_mutation_guarded r w w' operation_id admitted_at task_id snapshot taken other_one =
      let different = not_current operation_id snapshot other_one in
      (
        ap (told r) (
            resolve_refused w w' operation_id (adopt_listed_task task_id) snapshot taken different),
        ap (told r) (
            resolve_refused w w' operation_id (abandon_after_reconciliation operation_id) snapshot
              taken different),
      )

  abbrev pub IsKeptFor : Mutation → ℕ → Answer → Type 0
  IsKeptFor (logout cookie seq) admitted_at answer =
      (answer.1 ≡ remove_after_auth_session seq) × (answer.0.status ≡ 204)
  IsKeptFor start_device_login admitted_at answer =
      (answer.1 ≡ retain)
      ⊎ ((deadline : ℕ) × (answer.1 ≡ expire_at deadline)
          × (admitted_at ≤ deadline)
          × (answer.0.status ≡ 202))
  IsKeptFor _ admitted_at answer = answer.1 ≡ retain

  retained-kept :
      (given : Result ApiError CachedResponse) → (or_error ports (retained given)).1 ≡ retain
  retained-kept (ok response) = refl
  retained-kept (err error) = refl

  session-kept {κ} :
      {A : Type κ} (to_vec : A → Option (List ℕ)) (status : ℕ) (given : Result P0SessionError A)
      → (or_error ports (session_answer to_vec status given)).1 ≡ retain
  session-kept to_vec status (ok value) = retained-kept (json to_vec status value)
  session-kept to_vec status (err error) = refl

  status-kept :
      (given : Result LoginPortError LoginStatus)
      → (or_error ports (status_answer ports given)).1 ≡ retain
  status-kept (ok status) = retained-kept (json ports.status_to_vec 200 status)
  status-kept (err error) = refl

  kept_until-kept :
      (admitted_at deadline : ℕ) (written : Result ApiError CachedResponse)
      → admitted_at ≤ deadline
      → ((response : CachedResponse) → written ≡ ok response → response.status ≡ 202)
      → IsKeptFor start_device_login admitted_at (or_error ports (kept_until deadline written))
  kept_until-kept admitted_at deadline (ok response) later accepted =
      inr (deadline, refl, later, accepted response refl)
  kept_until-kept admitted_at deadline (err error) later accepted = inl refl

  login_response-kept :
      (admitted_at : ℕ) (interaction : LoginInstructions) (expires_at : Option ℕ)
      → ((deadline : ℕ) → expires_at ≡ some deadline → admitted_at ≤ deadline)
      → IsKeptFor start_device_login admitted_at
          (or_error ports (login_response ports admitted_at interaction expires_at))
  login_response-kept admitted_at interaction none later = inl refl
  login_response-kept admitted_at interaction (some deadline) later =
      kept_until-kept admitted_at deadline (json ports.login_to_vec 202 interaction)
        (later deadline refl) (json-status ports.login_to_vec 202 interaction)

  login-kept :
      (admitted_at : ℕ) (given : Result LoginPortError LoginInstructions)
      → IsKeptFor start_device_login admitted_at
          (or_error ports (login_answer ports admitted_at given))
  login-kept admitted_at (err error) = inl refl
  login-kept admitted_at (ok interaction) =
      login_response-kept admitted_at interaction
        (checked_add admitted_at (interaction.expires_in_seconds * nanos_per_sec))
        (checked_add_later admitted_at (interaction.expires_in_seconds * nanos_per_sec))

  resolve_checked-kept :
      (operation_id : ℕ) (decision : UnknownSubmitDecision)
      (checked : W × Result ApiError (Unit {0}))
      → (or_error ports (resolve_checked ports operation_id decision checked).1).1 ≡ retain
  resolve_checked-kept operation_id decision (w, err error) = refl
  resolve_checked-kept operation_id decision (w, ok u) =
      session-kept ports.snapshot_to_vec 200 (ports.resolve_unknown w operation_id decision).1

  resolve-kept :
      (w : W) (operation_id : ℕ) (decision : UnknownSubmitDecision)
      → (or_error ports (resolve_current ports w operation_id decision).1).1 ≡ retain
  unfolding resolve_current
  resolve-kept w operation_id decision =
      resolve_checked-kept operation_id decision (require_current_unknown ports w operation_id)

  -- A response is kept until the operator's session ends for a logout, up to a deadline that is not
  -- before the request for a device login that started, and as long as there is room for all else,
  -- errors included; and only a logout changes the operators' sessions.
  pub execute_mutation-IsKeptFor :
      (r : AppSessionRegistry) (w : W) (m : Mutation) (admitted_at : ℕ)
      → IsKeptFor m admitted_at (execute_mutation ports r w m admitted_at).2
        × (((cookie : List ℕ) (seq : ℕ) → m ≢ logout cookie seq)
            → (execute_mutation ports r w m admitted_at).0 ≡ r)
  unfolding execute_mutation try_execute_mutation empty_logout
  execute_mutation-IsKeptFor r w (logout cookie seq) admitted_at =
      ((refl, refl), λ other. absurd (other cookie seq refl))
  execute_mutation-IsKeptFor r w start_device_login admitted_at =
      (login-kept admitted_at (ports.start_device_login w).1, λ other. refl)
  execute_mutation-IsKeptFor r w cancel_login admitted_at =
      (status-kept (ports.cancel_login w).1, λ other. refl)
  execute_mutation-IsKeptFor r w cancel_turn admitted_at =
      (session-kept ports.snapshot_to_vec 200 (ports.cancel_turn w).1, λ other. refl)
  execute_mutation-IsKeptFor r w reconcile admitted_at =
      (session-kept ports.candidates_to_vec 200 (ports.reconcile_unknown w).1, λ other. refl)
  execute_mutation-IsKeptFor r w (start_turn prompt) admitted_at =
      (session-kept ports.receipt_to_vec 202 (ports.start_turn w prompt).1, λ other. refl)
  execute_mutation-IsKeptFor r w (adopt operation_id task_id) admitted_at =
      (resolve-kept w operation_id (adopt_listed_task task_id), λ other. refl)
  execute_mutation-IsKeptFor r w (abandon operation_id) admitted_at =
      (resolve-kept w operation_id (abandon_after_reconciliation operation_id), λ other. refl)
