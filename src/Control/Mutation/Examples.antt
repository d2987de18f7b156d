-- ===== src/Control/Mutation/Examples.antt =====
-- A session and a login behind the ports of apps/control-plane/src/state.rs, and the theorems at them.
use fanzloud.Base.{ℕ, ◌+◌, refl, some, ok, err}
use fanzloud.Session.Error.{P0SessionError, new}
use fanzloud.Session.Error.Category.{P0SessionErrorCategory}
use fanzloud.Session.Types.{P0SessionSnapshot}
use fanzloud.Session.State.{snapshot_from}
use fanzloud.Session.Examples.{inner, queued}
use fanzloud.Control.Bytes.{codes}
use fanzloud.Control.AppSessions.Examples.{one}
use fanzloud.Control.Mutation.{Ports, LoginStatus, adopt, abandon, execute_mutation}
use fanzloud.Control.Mutation.Guarded.{IsRefused, execute_mutation_guarded}

abbrev snapshot_now : P0SessionSnapshot
snapshot_now = snapshot_from inner queued

abbrev refused : P0SessionError
refused = new P0SessionErrorCategory.wrong_session

-- What is behind the ports is how many methods other than `snapshot` were called.
abbrev pub ports : Ports ℕ
ports = record {
  start_device_login = λ w. (
    w + 1,
    ok (record {
      operation_id = 8;
      verification_url = "https://login.test/device";
      verification_code = "CODE";
      expires_in_seconds = 600;
    }),
  );
  cancel_login = λ w. (w + 1, ok LoginStatus.logged_out);
  snapshot = λ w. (w, ok snapshot_now);
  start_turn = λ w prompt. (w + 1, ok (record { turn_id = 5; high_water_seq = 1 }));
  cancel_turn = λ w. (w + 1, ok snapshot_now);
  reconcile_unknown = λ w. (w + 1, err refused);
  resolve_unknown = λ w operation_id decision. (w + 1, ok snapshot_now);
  login_to_vec = λ interaction. some (codes "{}");
  status_to_vec = λ status. some (codes "{}");
  receipt_to_vec = λ receipt. some (codes "{}");
  snapshot_to_vec = λ snapshot. some (codes "{}");
  candidates_to_vec = λ candidates. some (codes "{}");
  error_to_vec = λ error. some (codes "{}");
}

-- The current turn is queued.
execute_mutation_guarded_example :
    IsRefused ports one 0 (execute_mutation ports one 0 (adopt 9 "task") 20)
    × IsRefused ports one 0 (execute_mutation ports one 0 (abandon 9) 20)
execute_mutation_guarded_example =
    execute_mutation_guarded ports one 0 0 9 20 "task" snapshot_now refl (λ h. cc h.2)
