-- ===== src/Control/AppSessions/Examples.antt =====
-- Operator sessions of apps/control-plane/src/state.rs, and the theorems at them.
use fanzloud.Base.{
  ℕ, ◌+◌, ◌/◌, ◌%◌, ◌≡◌, refl, sym, ap, ◌↔◌, inl, Bool, true, some, List, [], ◌∷◌, ◌++◌, map, ok,
  err, arith, All,
}
use fanzloud.Session.Examples.{inner}
use fanzloud.Control.Request.{CachedResponse}
use fanzloud.Control.ApiErrors.{authentication_required}
use fanzloud.Control.Bytes.{codes}
use fanzloud.Control.HttpConfig.{min_session_lifetime, nanos_per_sec}
use fanzloud.Control.Transport.{common_headers, json, bootstrap}
use fanzloud.Control.Cookie.{Headers, parse_cookie}
use fanzloud.Control.Cookie.Parsed.{IsPlain, own_pair, parse_cookie-own}
use fanzloud.Control.AppSessions.{
  AppSessionRegistry, AppSessionLease, new_registry, authenticate_cookie, invalidate_cookie,
  release_app_session, live_count, prune_expired, sort_by_seq, retain_all, expire_all, any_token,
}
use fanzloud.Control.WebSocket.Utf8.{is_utf8}
use fanzloud.Control.AppSessions.Issue.{
  Codec, Entropy, new_session, cookie_text, create_app_session, draw_token, issue, session_response,
}
use fanzloud.Control.AppSessions.Sound.{IsSound}
use fanzloud.Control.AppSessions.Calls.{
  Call, create, authenticate, invalidate, release, check, run, run-IsSound,
}
use fanzloud.Control.AppSessions.Access.{authenticate_cookie_exact}
use fanzloud.Control.AppSessions.Pruned.{Any, Opens}
use fanzloud.Control.AppSessions.Logout.{invalidate_cookie_final}
use fanzloud.Control.AppSessions.Grant.{
  IsOther, create_app_session-authenticates, release_app_session_exact,
}

abbrev pub token : List ℕ
token = codes "abcdefghijklmnopqrstuvwxyzabcdefghijklmnopq"

token-IsPlain : All IsPlain token
token-IsPlain = ground arith

-- An encoding as capital letters, without a space and without a semicolon.
abbrev letter : ℕ → ℕ
letter byte = b'A' + byte % 26

letters-IsPlain : (bytes : List ℕ) → All IsPlain (map letter bytes)
letters-IsPlain [] = tt
letters-IsPlain (byte ∷ bytes) = (ground arith, letters-IsPlain bytes)

abbrev pub codec : Codec
codec = record {
  base64 = map letter;
  bootstrap_to_vec = λ response. some (codes "{}");
  is_header_value = λ value. true;
}

abbrev entropy : Entropy
entropy attempt = some token

abbrev pub headers : Headers
headers = (codes "cookie", own_pair token) ∷ []

-- One session, which another request holds.
abbrev pub one : AppSessionRegistry
one = record {
  sessions = record (new_session token 1000 1) { active_requests = 1 } ∷ [];
  issuance_seq = 1;
}

pub one-IsSound : IsSound one
unfolding live_count
one-IsSound = record {
  sized = (refl, tt);
  ascending = (omega arith, tt);
  issued = (omega arith, tt);
  distinct = (tt, tt);
  few = omega arith;
}

abbrev pub lease : AppSessionLease
lease = record { token = token; issuance_seq = 1 }

pub token-opens : (parse_cookie headers).0 ≡ token
token-opens = ap (λ (c : List ℕ × Bool). c.0) (parse_cookie-own token token-IsPlain refl)

authenticate_cookie_exact_example : ((authenticate_cookie one headers 10).1 ≡ ok lease) ↔ (
    ((parse_cookie headers).1 ≡ true)
    × (lease.token ≡ (parse_cookie headers).0)
    × Any (Opens (parse_cookie headers).0 10 lease.issuance_seq) one.sessions)
authenticate_cookie_exact_example = authenticate_cookie_exact one headers 10 lease one-IsSound

opens :
    Opens (parse_cookie headers).0 10 1 (record (new_session token 1000 1) { active_requests = 1 })
opens = record {
  same_token = sym token-opens;
  same_seq = refl;
  valid = refl;
  unexpired = omega arith;
}

pub let_in : (authenticate_cookie one headers 10).1 ≡ ok lease
let_in = (authenticate_cookie_exact one headers 10 lease one-IsSound).1 (
  ap (λ (c : List ℕ × Bool). c.1) (parse_cookie-own token token-IsPlain refl),
  sym token-opens,
  inl opens,
)

abbrev calls : List Call
calls =
    authenticate headers 10 ∷ check 1 20 ∷ invalidate token 1 ∷ create entropy 30 ∷ release 1 ∷ []

run-IsSound_example : IsSound (run codec inner.identity min_session_lifetime one calls)
run-IsSound_example =
    run-IsSound codec inner.identity min_session_lifetime one calls one-IsSound (omega arith)

-- A call that is made after the logout.
invalidate_cookie_final_example :
    (authenticate_cookie
      (run codec inner.identity min_session_lifetime
        (invalidate_cookie (authenticate_cookie one headers 10).0 token 1)
        (release 1 ∷ check 1 11 ∷ []))
      headers
      12).1
    ≡ err authentication_required
invalidate_cookie_final_example =
    invalidate_cookie_final codec inner.identity min_session_lifetime one headers 10 lease
      (release 1 ∷ check 1 11 ∷ []) headers 12 one-IsSound let_in (omega arith)
      (λ never. never, (λ never. never, tt)) token-opens

abbrev drawn : List ℕ
drawn = map letter token

abbrev granted : AppSessionRegistry
granted = record {
  sessions = new_session drawn (5 + min_session_lifetime) 1 ∷ [];
  issuance_seq = 1;
}

abbrev response : CachedResponse
response = record {
  status = 201;
  headers =
      common_headers (some (codes "application/json"))
      ++ (codes "set-cookie", cookie_text drawn 300) ∷ [];
  body = codes "{}";
}

created :
    create_app_session codec inner.identity min_session_lifetime entropy 5 new_registry
    ≡ (granted, ok response)
unfolding create_app_session live_count prune_expired sort_by_seq retain_all expire_all draw_token
    any_token issue session_response is_utf8 bootstrap json
created = refl

none-IsSound : IsSound new_registry
unfolding live_count
none-IsSound = record { sized = tt; ascending = tt; issued = tt; distinct = tt; few = omega arith }

create_app_session-authenticates_example :
    (issued : List ℕ) × ((lead : List (List ℕ × List ℕ)) × (response.headers
        ≡ lead
          ++ (codes "set-cookie", cookie_text issued (min_session_lifetime / nanos_per_sec)) ∷ []))
    × ((authenticate_cookie granted ((codes "cookie", own_pair issued) ∷ []) 7).1
        ≡ ok (record { token = issued; issuance_seq = granted.issuance_seq }))
create_app_session-authenticates_example =
    create_app_session-authenticates codec inner.identity min_session_lifetime entropy 5 7
      new_registry granted response letters-IsPlain none-IsSound (omega arith) created (omega arith)

release_app_session_exact_example :
    ((release_app_session one 1).1 ≡ true) ↔ All (IsOther 1) (release_app_session one 1).0.sessions
release_app_session_exact_example = release_app_session_exact one 1 one-IsSound
