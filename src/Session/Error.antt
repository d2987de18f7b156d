-- ===== src/Session/Error.antt =====
-- crates/codebox-session-runtime/src/error.rs: the redacted failures of the session.
pub mod Category
use fanzloud.Base.{ℕ, Option, none, some}
use fanzloud.Cloud.Lifecycle.{CloudLifecycleErrorCategory}
use Category.{CloudDiffReadErrorCategory, P0SessionConfigField, P0SessionErrorCategory}

pub record P0SessionError : Type 0 where
  pub category : P0SessionErrorCategory
  pub turn_id : Option ℕ
  pub operation_id : Option ℕ
  pub oldest_available : Option ℕ
  pub latest_available : Option ℕ
  pub cloud_lifecycle : Option CloudLifecycleErrorCategory
  pub cloud_diff : Option CloudDiffReadErrorCategory
  pub config_field : Option P0SessionConfigField

abbrev pub new : P0SessionErrorCategory → P0SessionError
new category = record {
  category = category;
  turn_id = none;
  operation_id = none;
  oldest_available = none;
  latest_available = none;
  cloud_lifecycle = none;
  cloud_diff = none;
  config_field = none;
}

abbrev pub invalid_config : P0SessionConfigField → P0SessionError
invalid_config field = record (new P0SessionErrorCategory.invalid_config) {
  config_field = some field;
}

abbrev pub for_turn : P0SessionErrorCategory → ℕ → P0SessionError
for_turn category turn = record (new category) { turn_id = some turn }

abbrev pub for_operation : P0SessionErrorCategory → ℕ → P0SessionError
for_operation category op = record (new category) { operation_id = some op }

abbrev pub history_gap : ℕ → ℕ → P0SessionError
history_gap oldest latest = record (new P0SessionErrorCategory.history_gap) {
  oldest_available = some oldest;
  latest_available = some latest;
}

abbrev pub future_cursor : ℕ → P0SessionError
future_cursor latest = record (new P0SessionErrorCategory.future_cursor) {
  latest_available = some latest;
}

abbrev pub from_cloud_lifecycle : CloudLifecycleErrorCategory → Option ℕ → P0SessionError
from_cloud_lifecycle category op = record (new P0SessionErrorCategory.cloud_lifecycle) {
  operation_id = op;
  cloud_lifecycle = some category;
}

abbrev pub from_cloud_diff : CloudDiffReadErrorCategory → P0SessionError
from_cloud_diff category = record (new P0SessionErrorCategory.cloud_diff) {
  cloud_diff = some category;
}
