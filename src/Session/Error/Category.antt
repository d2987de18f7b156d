-- ===== src/Session/Error/Category.antt =====
-- The failure classes of crates/codebox-session-runtime/src/error.rs and config.rs.
-- `CloudDiffReadErrorCategory` of crates/codebox-agent-codex/src/cloud_diff.rs.
pub data CloudDiffReadErrorCategory : Type 0 where
  ineligible_lifecycle authority_mismatch scope busy version : CloudDiffReadErrorCategory
  diagnostic_boundary process timeout canceled output_limit : CloudDiffReadErrorCategory
  provider_drift invalid_diff : CloudDiffReadErrorCategory

pub data P0SessionConfigField : Type 0 where
  poll_interval history_capacity max_subscribers live_capacity : P0SessionConfigField

pub data P0SessionErrorCategory : Type 0 where
  invalid_config turn_already_running no_current_turn wrong_state : P0SessionErrorCategory
  wrong_session wrong_operation runtime_stopped : P0SessionErrorCategory
  cloud_lifecycle cloud_diff history_gap future_cursor : P0SessionErrorCategory
  subscriber_limit sequence_exhausted lower_conflict : P0SessionErrorCategory

pub data P0LiveReceiveError : Type 0 where
  empty lagged runtime_stopped closed : P0LiveReceiveError
