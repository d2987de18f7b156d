-- ===== src/Control/Request.antt =====
-- Values of the control plane that the registry keeps: the identity of a request of
-- apps/control-plane/src/types.rs, a cached response of transport.rs and an error of error.rs. A text
-- or a body is its bytes.
use fanzloud.Base.{
  ℕ, ◌+◌, min, Bool, true, false, ◌&&◌, Option, none, some, List, [], ◌∷◌, String, ◌≡◌, refl, ◌↔◌,
  arith, length, ◌==◌, ==_iff, ==_refl, u64_max,
}

-- `saturating_add` on a `usize` or a `u64`.
abbrev pub saturating_add : ℕ → ℕ → ℕ
saturating_add a b = min (a + b) u64_max

pub record ApiErrorBody : Type 0 where
  pub code : String
  pub message : String
  pub operation_id : Option ℕ

pub record ApiError : Type 0 where
  pub status : ℕ
  pub error : ApiErrorBody

abbrev pub new_error : ℕ → String → String → ApiError
new_error status code message = record {
  status = status;
  error = record { code = code; message = message; operation_id = none };
}

abbrev pub idempotency_conflict : ApiError
idempotency_conflict =
    new_error 409 "idempotency_conflict" "idempotency key was used for another request"

abbrev pub idempotency_unavailable : ApiError
idempotency_unavailable =
    new_error 503 "idempotency_unavailable" "idempotency registry is temporarily unavailable"

pub record RequestIdentity : Type 0 where
  pub method : List ℕ
  pub route : List ℕ
  pub body : List ℕ
  pub instance_id : ℕ
  pub logout_session_seq : Option ℕ

abbrev pub seq_bytes : Option ℕ → ℕ
seq_bytes none = 0
seq_bytes (some seq) = 8

unfoldable pub request_storage_bytes : RequestIdentity → ℕ
request_storage_bytes i =
    saturating_add
      (saturating_add (saturating_add (saturating_add 64 (length i.method)) (length i.route))
        (length i.body))
      (seq_bytes i.logout_session_seq)

unfoldable pub bytes_eq : List ℕ → List ℕ → Bool
bytes_eq [] [] = true
bytes_eq (x ∷ xs) (y ∷ ys) = x == y && bytes_eq xs ys
bytes_eq _ _ = false

abbrev pub option_eq : Option ℕ → Option ℕ → Bool
option_eq none none = true
option_eq (some a) (some b) = a == b
option_eq _ _ = false

unfoldable pub identity_eq : RequestIdentity → RequestIdentity → Bool
identity_eq i j =
    bytes_eq i.method j.method
    && bytes_eq i.route j.route
    && bytes_eq i.body j.body
    && i.instance_id == j.instance_id
    && option_eq i.logout_session_seq j.logout_session_seq

pub record CachedResponse : Type 0 where
  pub status : ℕ
  pub headers : List (List ℕ × List ℕ)
  pub body : List ℕ

abbrev add_headers : ℕ → List (List ℕ × List ℕ) → ℕ
add_headers total [] = total
add_headers total ((name, value) ∷ headers) =
    add_headers (saturating_add (saturating_add total (length name)) (length value)) headers

unfoldable pub response_storage_bytes : CachedResponse → ℕ
response_storage_bytes response =
    add_headers (saturating_add 64 (length response.body)) response.headers

bytes_eq_refl : (xs : List ℕ) → bytes_eq xs xs ≡ true
unfolding bytes_eq
bytes_eq_refl [] = refl
bytes_eq_refl (x ∷ xs) = ground (arith, bytes_eq_refl xs, ==_refl x)

pub bytes_eq_iff : (xs ys : List ℕ) → (bytes_eq xs ys ≡ true) ↔ (xs ≡ ys)
unfolding bytes_eq
bytes_eq_iff [] [] = (λ e. refl, λ e. refl)
bytes_eq_iff [] (y ∷ ys) = (λ e. cc, λ e. cc)
bytes_eq_iff (x ∷ xs) [] = (λ e. cc, λ e. cc)
bytes_eq_iff (x ∷ xs) (y ∷ ys) = ground (arith, bytes_eq_iff xs ys, ==_iff x y)

option_eq_refl : (o : Option ℕ) → option_eq o o ≡ true
option_eq_refl none = refl
option_eq_refl (some a) = ==_refl a

-- A request is its own repetition.
pub identity_eq_refl : (i : RequestIdentity) → identity_eq i i ≡ true
unfolding identity_eq
identity_eq_refl i = grind (
  arith,
  bytes_eq_refl i.method,
  bytes_eq_refl i.route,
  bytes_eq_refl i.body,
  ==_refl i.instance_id,
  option_eq_refl i.logout_session_seq,
)
