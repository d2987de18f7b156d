-- ===== src/Control/Http.antt =====
-- The checks of one request in apps/control-plane/src/routes.rs: its headers and its body.
use fanzloud.Base.{
  ℕ, ◌+◌, ◌-◌, ◌*◌, Bool, true, false, not, ◌&&◌, ◌||◌, Option, none, some, List, [], ◌∷◌, length,
  Result, ok, err, ◌>>=◌, ◌>>◌, ensure, ltb, leb, ◌==◌, if◌then◌else◌, is_some_and, and_then,
  u64_max,
}
use fanzloud.Domain.Sequence.{try_from_uuid}
use fanzloud.Session.Types.{P0SessionIdentity}
use fanzloud.Control.Request.{ApiError, new_error}
use fanzloud.Control.Bytes.{codes}
use fanzloud.Control.ApiErrors.{invalid_request, origin_forbidden, authentication_required}
use fanzloud.Control.HttpConfig.{P0HttpConfig, matches, matches_header}
use fanzloud.Control.Cookie.{Headers, get_all, single_header}

abbrev pub max_header_bytes : ℕ
max_header_bytes = 256

abbrev pub max_body_bytes : ℕ
max_body_bytes = 40 * 1024

pub data Method : Type 0 where
  get post delete other : Method

abbrev method_code : Method → ℕ
method_code get = 0
method_code post = 1
method_code delete = 2
method_code other = 3

-- `body` is none when its transfer fails.
pub record Request : Type 0 where
  pub method : Method
  pub headers : Headers
  pub body : Option (List ℕ)

unfoldable pub ensure_request_method : Request → Method → Result ApiError (Unit {0})
ensure_request_method request method =
    ensure (method_code request.method == method_code method) invalid_request

abbrev pub static_method_name : Method → List ℕ
static_method_name delete = codes "DELETE"
static_method_name _ = codes "POST"

any_long : Headers → Bool
any_long [] = false
any_long ((name, value) ∷ headers) = ltb max_header_bytes (length value) || any_long headers

unfoldable pub validate_headers : Headers → Result ApiError (Unit {0})
unfolding any_long
validate_headers headers = ensure (not (any_long headers)) invalid_request

unfoldable pub validate_origin : P0HttpConfig → Headers → Result ApiError (Unit {0})
validate_origin config headers =
    ensure (matches_header config.public_origin (single_header headers (codes "origin")))
      origin_forbidden

-- `strip_prefix`.
strip_prefix : List ℕ → List ℕ → Option (List ℕ)
strip_prefix [] value = some value
strip_prefix (p ∷ prefix) [] = none
strip_prefix (p ∷ prefix) (byte ∷ value) =
    let rest = strip_prefix prefix value in if p == byte then rest else none

unfoldable pub validate_bootstrap : P0HttpConfig → Headers → Result ApiError (Unit {0})
unfolding strip_prefix
validate_bootstrap config headers =
    ensure
      (matches config.bootstrap
        (and_then (single_header headers (codes "authorization")) (strip_prefix (codes "Bearer "))))
      authentication_required

-- `to_str` of the http crate and `parse_str` of the uuid crate: a parameter.
abbrev pub UuidParser : Type 0
UuidParser = List ℕ → Option ℕ

abbrev pub non_nil : ℕ → Option ℕ
non_nil value = elim (try_from_uuid value) [ ok u ↦ some u | err e ↦ none ]

abbrev pub idempotency_key_invalid : ApiError
idempotency_key_invalid =
    new_error 400 "idempotency_key_invalid" "idempotency key must be a non-nil UUID"

abbrev or_invalid : Option ℕ → Result ApiError ℕ
or_invalid none = err idempotency_key_invalid
or_invalid (some key) = ok key

unfoldable pub parse_idempotency_key : UuidParser → Headers → Result ApiError ℕ
unfolding try_from_uuid
parse_idempotency_key parse headers =
    or_invalid (and_then (and_then (single_header headers (codes "idempotency-key")) parse) non_nil)

abbrev pub instance_changed : ApiError
instance_changed =
    new_error 409 "instance_changed" "control-plane instance changed; refresh before retry"

abbrev same_instance : P0SessionIdentity → Option ℕ → Result ApiError ℕ
same_instance identity none = err instance_changed
same_instance identity (some supplied) =
    if supplied == identity.instance_id then ok supplied else err instance_changed

unfoldable pub parse_instance : UuidParser → P0SessionIdentity → Headers → Result ApiError ℕ
unfolding try_from_uuid
parse_instance parse identity headers =
    same_instance identity
      (and_then (and_then (single_header headers (codes "codebox-instance-id")) parse) non_nil)

abbrev pub request_too_large : ApiError
request_too_large = new_error 413 "request_too_large" "request body exceeds its limit"

abbrev pub unsupported_media_type : ApiError
unsupported_media_type = new_error 415 "unsupported_media_type" "application/json is required"

abbrev pub body_not_empty : ApiError
body_not_empty = new_error 422 "body_not_empty" "request body must be empty"

-- `parse::<usize>`: an optional plus sign and digits, within the range.
abbrev is_digit : ℕ → Bool
is_digit byte = leb b'0' byte && leb byte b'9'

digits_from : ℕ → List ℕ → Option ℕ
digits_from value [] = some value
digits_from value (byte ∷ bytes) =
    let next = value * 10 + (byte - b'0') in
    let rest = digits_from next bytes in if is_digit byte && leb next u64_max then rest else none

unsigned : List ℕ → Option ℕ
unsigned [] = none
unsigned (byte ∷ bytes) = digits_from 0 (byte ∷ bytes)

unfoldable pub parse_usize : List ℕ → Option ℕ
unfolding digits_from unsigned
parse_usize [] = none
parse_usize (byte ∷ bytes) = if byte == b'+' then unsigned bytes else unsigned (byte ∷ bytes)

-- `to_bytes` of axum, which fails on a body above the limit.
abbrev bounded : Option (List ℕ) → Result ApiError (List ℕ)
bounded none = err request_too_large
bounded (some bytes) = if ltb max_body_bytes (length bytes) then err request_too_large else ok bytes

unfoldable pub read_bounded_body : Request → Result ApiError (List ℕ)
read_bounded_body request = do
  ensure
      (not (
        is_some_and (and_then (single_header request.headers (codes "content-length")) parse_usize)
          (λ size. ltb max_body_bytes size)))
      request_too_large
  bounded request.body

abbrev lower_case : ℕ → ℕ
lower_case byte = if leb b'A' byte && leb byte b'Z' then byte + 32 else byte

eq_ignore_ascii_case : List ℕ → List ℕ → Bool
eq_ignore_ascii_case [] [] = true
eq_ignore_ascii_case (x ∷ xs) (y ∷ ys) = lower_case x == lower_case y && eq_ignore_ascii_case xs ys
eq_ignore_ascii_case _ _ = false

unfoldable pub is_json_content_type : List ℕ → Bool
unfolding eq_ignore_ascii_case
is_json_content_type value =
    eq_ignore_ascii_case value (codes "application/json")
    || eq_ignore_ascii_case value (codes "application/json; charset=utf-8")

abbrev empty_type_is_valid : List (List ℕ) → Bool
empty_type_is_valid [] = true
empty_type_is_valid (value ∷ []) = is_json_content_type value
empty_type_is_valid (value ∷ _ ∷ _) = false

unfoldable pub validate_empty_content_type : Headers → Result ApiError (Unit {0})
validate_empty_content_type headers =
    ensure (empty_type_is_valid (get_all (codes "content-type") headers)) unsupported_media_type

unfoldable pub validate_json_content_type : Headers → Result ApiError (Unit {0})
validate_json_content_type headers =
    ensure (is_some_and (single_header headers (codes "content-type")) is_json_content_type)
      unsupported_media_type

abbrev empty_body : List ℕ → Result ApiError (List ℕ)
empty_body [] = ok []
empty_body (byte ∷ bytes) = err body_not_empty

unfoldable pub read_empty : Request → Result ApiError (List ℕ)
read_empty request = do
  validate_empty_content_type request.headers
  body ← read_bounded_body request
  empty_body body

unfoldable pub read_json : Request → Result ApiError (List ℕ)
read_json request = do validate_json_content_type request.headers; read_bounded_body request

-- What serde_json makes of a body is a parameter; its errors are of the syntax or of the data.
pub data JsonError : Type 0 where
  syntax_or_eof other_error : JsonError

abbrev pub classify_json_error : JsonError → ApiError
classify_json_error syntax_or_eof = new_error 400 "malformed_json" "request body is not valid JSON"
classify_json_error other_error = invalid_request
