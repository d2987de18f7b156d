-- ===== src/Control/Transport.antt =====
-- apps/control-plane/src/transport.rs: the responses. What serde_json makes of a value is a parameter.
use fanzloud.Base.{ℕ, Option, none, some, List, [], ◌∷◌, ◌++◌, Result, ok, err, ◌>>=◌}
use fanzloud.Control.Request.{ApiError, CachedResponse}
use fanzloud.Control.Bytes.{codes}
use fanzloud.Control.ApiErrors.{service_unavailable}

abbrev pub Header : Type 0
Header = List ℕ × List ℕ

abbrev json_type : List ℕ
json_type = codes "application/json"

abbrev content_type_header : Option (List ℕ) → List Header
content_type_header none = []
content_type_header (some content_type) = (codes "content-type", content_type) ∷ []

unfoldable pub common_headers : Option (List ℕ) → List Header
common_headers content_type =
    (codes "cache-control", codes "no-store")
    ∷ (codes "x-content-type-options", codes "nosniff")
    ∷ content_type_header content_type

unfoldable pub json {ℓ} :
    {A : Type ℓ} → (A → Option (List ℕ)) → ℕ → A → Result ApiError CachedResponse
json to_vec status value = elim (to_vec value) [
  | none ↦ err service_unavailable
  | some body ↦
      ok (record { status = status; headers = common_headers (some json_type); body = body })
]

abbrev fallback_body : List ℕ
fallback_body =
    codes
      "{\"error\":{\"code\":\"service_unavailable\",\"message\":\"control-plane service is unavailable\"}}"

-- `CachedResponse::error`.
unfoldable pub error_response : (ApiError → Option (List ℕ)) → ApiError → CachedResponse
error_response to_vec error = elim (to_vec error) [
  | some body ↦ record {
    status = error.status;
    headers = common_headers (some json_type);
    body = body;
  }
  | none ↦ record { status = 503; headers = common_headers (some json_type); body = fallback_body }
]

abbrev set_cookie : List ℕ → Header
set_cookie cookie = (codes "set-cookie", cookie)

unfoldable pub empty_logout : List ℕ → CachedResponse
empty_logout cookie = record {
  status = 204;
  headers = common_headers none ++ set_cookie cookie ∷ [];
  body = [];
}

unfoldable pub bootstrap {ℓ} :
    {A : Type ℓ} → (A → Option (List ℕ)) → A → List ℕ → Result ApiError CachedResponse
bootstrap to_vec value cookie = do
  response ← json to_vec 201 value
  ok (record response { headers = response.headers ++ set_cookie cookie ∷ [] })

unfoldable pub diff : List ℕ → CachedResponse
diff value = record {
  status = 200;
  headers =
      common_headers (some (codes "text/plain; charset=utf-8"))
      ++ ((codes "content-security-policy", codes "default-src 'none'; sandbox")
          ∷ (codes "content-disposition", codes "inline")
          ∷ []);
  body = value;
}

-- `into_response` of routes.rs, up to the http crate.
unfoldable pub into_response :
    (ApiError → Option (List ℕ)) → Result ApiError CachedResponse → CachedResponse
into_response to_vec (ok response) = response
into_response to_vec (err error) = error_response to_vec error
