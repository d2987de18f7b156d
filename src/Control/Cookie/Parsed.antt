-- ===== src/Control/Cookie/Parsed.antt =====
-- What `parse_cookie` of apps/control-plane/src/state.rs makes of a cookie header.
use fanzloud.Base.{
  ℕ, zero, suc, ◌≡◌, refl, ap, ◌∙◌, ◌&&◌, true, false, Option, none, some, List, [], ◌∷◌, ◌++◌,
  length, All, All-append, arith, ◌==◌,
}
use fanzloud.Control.Request.{bytes_eq}
use fanzloud.Control.Bytes.{codes}
use fanzloud.Control.HttpConfig.{trim_start, trim_end, padded}
use fanzloud.Control.Cookie.{
  Headers, Candidate, cookie_name, get_all, split, split_once, trim_ascii_space, take_pair,
  take_part, take_parts, take_values, no_candidate, parse_cookie,
}

-- A byte that a cookie's value may hold without being cut: no space and no semicolon.
abbrev pub IsPlain : ℕ → Type 0
IsPlain byte = ((byte == b' ') ≡ false) × ((byte == b';') ≡ false)

split_plain : (bytes : List ℕ) → All IsPlain bytes → split b';' bytes ≡ bytes ∷ []
unfolding split
split_plain [] h = refl
split_plain (byte ∷ bytes) h = ground (arith, split_plain bytes h.1)

trim_end_plain :
    (bytes : List ℕ) → All IsPlain bytes → trim_end (λ byte. byte == b' ') bytes ≡ bytes
unfolding trim_end
trim_end_plain [] h = refl
trim_end_plain (byte ∷ bytes) h = ground (arith, trim_end_plain bytes h.1)

abbrev pub own_pair : List ℕ → List ℕ
own_pair token = codes "__Host-codebox_p0=" ++ token

prefix-IsPlain : All IsPlain (codes "__Host-codebox_p0=")
prefix-IsPlain = ground arith

own_pair-IsPlain : (token : List ℕ) → All IsPlain token → All IsPlain (own_pair token)
own_pair-IsPlain token h = All-append IsPlain (codes "__Host-codebox_p0=") token prefix-IsPlain h

own_split : (token : List ℕ) → split_once b'=' (own_pair token) ≡ some (cookie_name, token)
unfolding split_once
own_split token = refl

own_trim : (token : List ℕ) → All IsPlain token → trim_ascii_space (own_pair token) ≡ own_pair token
unfolding trim_start
own_trim token h = trim_end_plain (own_pair token) (own_pair-IsPlain token h)

own_values :
    (token : List ℕ)
    → get_all (codes "cookie") ((codes "cookie", own_pair token) ∷ []) ≡ own_pair token ∷ []
unfolding get_all bytes_eq
own_values token = refl

own_taken :
    (token : List ℕ)
    → length token ≡ 43
    → take_pair no_candidate (some (cookie_name, token))
      ≡ record { candidate = token; count = 1; valid = true }
unfolding bytes_eq
own_taken token size = ground arith

own_part :
    (token : List ℕ)
    → All IsPlain token
    → length token ≡ 43
    → take_part no_candidate (own_pair token)
      ≡ record { candidate = token; count = 1; valid = true }
unfolding take_part bytes_eq
own_part token h size =
    ap (λ p. take_pair no_candidate (split_once b'=' p)) (own_trim token h)
    ∙ ap (take_pair no_candidate) (own_split token)
    ∙ own_taken token size

own-All :
    (token : List ℕ)
    → All IsPlain token
    → length token ≡ 43
    → take_values no_candidate (get_all (codes "cookie") ((codes "cookie", own_pair token) ∷ []))
      ≡ record { candidate = token; count = 1; valid = true }
unfolding take_values take_parts
own-All token h size =
    ap (take_values no_candidate) (own_values token)
    ∙ ap (take_parts no_candidate) (split_plain (own_pair token) (own_pair-IsPlain token h))
    ∙ own_part token h size

-- The cookie that a client sends back as it was set is read as its token, when the token has 43 bytes
-- without a space or a semicolon among them.
pub parse_cookie-own :
    (token : List ℕ)
    → All IsPlain token
    → length token ≡ 43
    → parse_cookie ((codes "cookie", own_pair token) ∷ []) ≡ (token, true)
unfolding parse_cookie
parse_cookie-own token h size =
    ap (λ (c : Candidate). (c.candidate, c.valid && c.count == 1)) (own-All token h size)

length-padded : (n : ℕ) → length (padded n []) ≡ n
unfolding padded
length-padded zero = refl
length-padded (suc n) = omega (arith, length-padded n)

take_pair-size :
    (c : Candidate) (pair : Option (List ℕ × List ℕ))
    → length c.candidate ≡ 43
    → length (take_pair c pair).candidate ≡ 43
take_pair-size c none h = h
take_pair-size c (some (name, value)) h = ground arith

take_parts-size :
    (c : Candidate) (parts : List (List ℕ))
    → length c.candidate ≡ 43
    → length (take_parts c parts).candidate ≡ 43
unfolding take_parts take_part
take_parts-size c [] h = h
take_parts-size c (part ∷ parts) h =
    take_parts-size (take_part c part) parts
      (take_pair-size c (split_once b'=' (trim_ascii_space part)) h)

take_values-size :
    (c : Candidate) (values : List (List ℕ))
    → length c.candidate ≡ 43
    → length (take_values c values).candidate ≡ 43
unfolding take_values
take_values-size c [] h = h
take_values-size c (value ∷ values) h =
    take_values-size (take_parts c (split b';' value)) values
      (take_parts-size c (split b';' value) h)

-- Whatever the headers are, the candidate has the length of a token.
pub parse_cookie-size : (headers : Headers) → length (parse_cookie headers).0 ≡ 43
unfolding parse_cookie
parse_cookie-size headers =
    take_values-size no_candidate (get_all (codes "cookie") headers) (length-padded 43)
