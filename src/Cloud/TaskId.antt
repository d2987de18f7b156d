-- ===== src/Cloud/TaskId.antt =====
-- Task identifiers of crates/codebox-agent-codex/src/cloud.rs. Every byte of a text is an ASCII
-- letter, digit, `_` or `-` exactly when every character is.
use Prim.Native.Char.{code}
use Prim.Native.String.{len}
use fanzloud.Base.{
  ℕ, Bool, true, not, ◌&&◌, ◌||◌, Result, ok, ◌>>◌, ensure, String, leb, ◌==◌, str_eq,
}
use text.Mathlib.Text.{starts_with}

pub data CloudField : Type 0 where
  environment branch prompt task_id task_url cursor status title updated_at : CloudField
  environment_id environment_label files_changed lines_added lines_removed : CloudField
  attempts list diff stdout stderr exit_status version : CloudField

pub data CloudErrorCategory : Type 0 where
  empty too_long control_character leading_hyphen reserved_value invalid_format : CloudErrorCategory
  invalid_utf8 overflow missing unexpected duplicate limit_exceeded : CloudErrorCategory
  provider_drift : CloudErrorCategory

pub record CloudAdapterError : Type 0 where
  pub field : CloudField
  pub category : CloudErrorCategory

abbrev pub max_task_id_bytes : ℕ
max_task_id_bytes = 128

abbrev pub between : ℕ → ℕ → ℕ → Bool
between lo hi c = leb lo c && leb c hi

abbrev pub is_id_code : ℕ → Bool
is_id_code c =
    between b'a' b'z' c || between b'A' b'Z' c || between b'0' b'9' c || c == b'_' || c == b'-'

unfoldable pub all_id_codes : String → Bool
all_id_codes String.[] = true
all_id_codes (String.◌∷◌ c s) = is_id_code (code c) && all_id_codes s

unfoldable pub try_new : String → Result CloudAdapterError String
try_new value = do
  ensure (not (str_eq value "")) (record { field = task_id; category = empty })
  ensure (leb (len value) max_task_id_bytes) (record { field = task_id; category = too_long })
  ensure (starts_with value "task_" && all_id_codes value)
      (record { field = task_id; category = invalid_format })
  ok value
