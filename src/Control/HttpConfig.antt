-- ===== src/Control/HttpConfig.antt =====
-- apps/control-plane/src/config.rs: the bootstrap secret, the public origin and the lifetime of an
-- application session. A text is its bytes and a `Duration` its nanoseconds.
pub mod Bootstrap
mod Examples
use Prim.Native.Nat.{bit_xor}
use fanzloud.Base.{
  ℕ, zero, suc, ◌*◌, ◌%◌, ◌^◌, ◌≤◌, ◌≡◌, Bool, true, false, not, ◌&&◌, ◌||◌, Option, none, some,
  List, [], ◌∷◌, length, String, str_eq, Result, ok, err, ◌>>◌, ensure, ltb, leb, ◌==◌,
  if◌then◌else◌,
}
use fanzloud.Control.Request.{bytes_eq}
use fanzloud.Control.Bytes.{codes, compare_from}

abbrev pub min_bootstrap_bytes : ℕ
min_bootstrap_bytes = 32

abbrev pub max_bootstrap_bytes : ℕ
max_bootstrap_bytes = 128

abbrev pub nanos_per_sec : ℕ
nanos_per_sec = 10 ^ 9

abbrev pub min_session_lifetime : ℕ
min_session_lifetime = 5 * 60 * nanos_per_sec

abbrev pub max_session_lifetime : ℕ
max_session_lifetime = 12 * 60 * 60 * nanos_per_sec

abbrev pub max_origin_bytes : ℕ
max_origin_bytes = 256

pub data P0HttpConfigField : Type 0 where
  public_origin bootstrap_token session_lifetime : P0HttpConfigField

-- An array of 128 bytes, of which the first `len` are the secret.
pub record OperatorBootstrapToken : Type 0 where
  pub bytes : List ℕ
  pub len : ℕ

abbrev is_ascii_control : ℕ → Bool
is_ascii_control byte = ltb byte 32 || byte == 127

any_control : List ℕ → Bool
any_control [] = false
any_control (byte ∷ bytes) = is_ascii_control byte || any_control bytes

-- `copy_from_slice` into the front of an array of zeros, with what is longer than the array left out.
unfoldable pub padded : ℕ → List ℕ → List ℕ
padded zero value = []
padded (suc n) [] = 0 ∷ padded n []
padded (suc n) (byte ∷ value) = byte ∷ padded n value

unfoldable pub try_new : List ℕ → Result P0HttpConfigField OperatorBootstrapToken
unfolding any_control
try_new value = do
  ensure
      (leb min_bootstrap_bytes (length value)
        && leb (length value) max_bootstrap_bytes
        && not (any_control value))
      bootstrap_token
  ok (record { bytes = padded max_bootstrap_bytes value; len = length value })

abbrev pub unwrap_or_default : Option (List ℕ) → List ℕ
unwrap_or_default none = []
unwrap_or_default (some candidate) = candidate

unfoldable pub compare : OperatorBootstrapToken → Option (List ℕ) → Bool × ℕ
compare t candidate =
    let given = unwrap_or_default candidate in
    let (difference, compared) =
      compare_from (bit_xor (length given) t.len) 0 t.bytes (padded max_bootstrap_bytes given) in
    (difference == 0, compared)

unfoldable pub matches : OperatorBootstrapToken → Option (List ℕ) → Bool
unfolding compare
matches t candidate = (compare t candidate).0

-- What the url crate gives for a text: a parameter. `origin` is the serialization of a tuple origin.
pub record Url : Type 0 where
  pub scheme : String
  pub has_host : Bool
  pub username_is_empty : Bool
  pub has_password : Bool
  pub has_query : Bool
  pub has_fragment : Bool
  pub path : String
  pub origin : Option (List ℕ)

starts_with : List ℕ → List ℕ → Bool
starts_with [] value = true
starts_with (p ∷ prefix) [] = false
starts_with (p ∷ prefix) (byte ∷ value) = p == byte && starts_with prefix value

abbrev origin_of : Option (List ℕ) → Result P0HttpConfigField (List ℕ)
origin_of none = err public_origin
origin_of (some origin) = ok origin

abbrev checked_url : Option Url → Result P0HttpConfigField (List ℕ)
checked_url none = err public_origin
checked_url (some url) = do
  ensure
      (not (
        not (str_eq url.scheme "https")
        || not url.has_host
        || not url.username_is_empty
        || url.has_password
        || url.has_query
        || url.has_fragment
        || not (str_eq url.path "/")))
      public_origin
  origin_of url.origin

unfoldable pub try_new_origin : (List ℕ → Option Url) → List ℕ → Result P0HttpConfigField (List ℕ)
unfolding starts_with
try_new_origin parse value = do
  ensure (not (ltb max_origin_bytes (length value) || not (starts_with (codes "https://") value)))
      public_origin
  checked_url (parse value)

abbrev is_optional_whitespace : ℕ → Bool
is_optional_whitespace byte = byte == b' ' || byte == 9

unfoldable pub trim_start : (ℕ → Bool) → List ℕ → List ℕ
trim_start test [] = []
trim_start test (byte ∷ bytes) = if test byte then trim_start test bytes else byte ∷ bytes

abbrev is_empty : List ℕ → Bool
is_empty [] = true
is_empty (byte ∷ bytes) = false

unfoldable pub trim_end : (ℕ → Bool) → List ℕ → List ℕ
trim_end test [] = []
trim_end test (byte ∷ bytes) =
    let rest = trim_end test bytes in if is_empty rest && test byte then [] else byte ∷ rest

abbrev pub trim_optional_whitespace : List ℕ → List ℕ
trim_optional_whitespace value =
    trim_end is_optional_whitespace (trim_start is_optional_whitespace value)

unfoldable pub matches_header : List ℕ → Option (List ℕ) → Bool
unfolding trim_start trim_end
matches_header origin none = false
matches_header origin (some value) = bytes_eq (trim_optional_whitespace value) origin

pub record P0HttpConfig : Type 0 where
  pub public_origin : List ℕ
  pub bootstrap : OperatorBootstrapToken
  pub session_lifetime : ℕ

-- `P0HttpConfig::new`.
abbrev pub new_config : List ℕ → OperatorBootstrapToken → P0HttpConfig
new_config origin bootstrap = record {
  public_origin = origin;
  bootstrap = bootstrap;
  session_lifetime = max_session_lifetime;
}

unfoldable pub try_with_session_lifetime : P0HttpConfig → ℕ → Result P0HttpConfigField P0HttpConfig
try_with_session_lifetime config lifetime = do
  ensure
      (leb min_session_lifetime lifetime
        && leb lifetime max_session_lifetime
        && lifetime % nanos_per_sec == 0)
      P0HttpConfigField.session_lifetime
  ok (record config { session_lifetime = lifetime })
