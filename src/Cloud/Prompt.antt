-- ===== src/Cloud/Prompt.antt =====
-- `CloudPrompt::try_new` of crates/codebox-agent-codex/src/cloud.rs. A text is its characters; the
-- control characters of ASCII are the same as characters and as bytes.
use Prim.Native.Char.{code}
use fanzloud.Base.{
  ℕ, ◌+◌, Bool, true, false, not, ◌&&◌, ◌||◌, Result, ok, ◌>>◌, ensure, String, ltb, leb, ◌==◌,
  str_eq, if◌then◌else◌,
}
use fanzloud.Cloud.TaskId.{CloudField, CloudErrorCategory, CloudAdapterError, between}

abbrev pub max_prompt_bytes : ℕ
max_prompt_bytes = 65536

-- `char::is_whitespace`.
is_whitespace : ℕ → Bool
is_whitespace c =
    between 9 13 c
    || c == 32
    || c == 0x85
    || c == 0xA0
    || c == 0x1680
    || between 0x2000 0x200A c
    || c == 0x2028
    || c == 0x2029
    || c == 0x202F
    || c == 0x205F
    || c == 0x3000

all_whitespace : String → Bool
all_whitespace String.[] = true
all_whitespace (String.◌∷◌ c s) = is_whitespace (code c) && all_whitespace s

-- The bytes of a character in UTF-8.
abbrev char_bytes : ℕ → ℕ
char_bytes c = if ltb c 0x80 then 1 else if ltb c 0x800 then 2 else if ltb c 0x10000 then 3 else 4

pub byte_len : String → ℕ
byte_len String.[] = 0
byte_len (String.◌∷◌ c s) = char_bytes (code c) + byte_len s

abbrev is_forbidden : ℕ → Bool
is_forbidden c = (ltb c 32 || c == 127) && not (c == 10) && not (c == 9)

any_forbidden : String → Bool
any_forbidden String.[] = false
any_forbidden (String.◌∷◌ c s) = is_forbidden (code c) || any_forbidden s

abbrev prompt_error : CloudErrorCategory → CloudAdapterError
prompt_error category = record { field = CloudField.prompt; category = category }

unfoldable pub try_new_prompt : String → Result CloudAdapterError String
unfolding is_whitespace all_whitespace byte_len any_forbidden
try_new_prompt value = do
  ensure (not (str_eq value "" || all_whitespace value)) (prompt_error CloudErrorCategory.empty)
  ensure (leb (byte_len value) max_prompt_bytes) (prompt_error CloudErrorCategory.too_long)
  ensure (not (str_eq value "-")) (prompt_error CloudErrorCategory.reserved_value)
  ensure (not (any_forbidden value)) (prompt_error CloudErrorCategory.control_character)
  ok value
