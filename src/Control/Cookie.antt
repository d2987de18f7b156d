-- ===== src/Control/Cookie.antt =====
-- The headers that apps/control-plane/src/state.rs reads: the application session's cookie, and a
-- header that may stand only once. The headers of a request are pairs of a name and a value in their
-- order, and a name is lower case.
pub mod Parsed
use fanzloud.Base.{
  ℕ, zero, suc, Bool, true, false, not, ◌&&◌, Option, none, some, List, [], ◌∷◌, length, ◌==◌,
  if◌then◌else◌,
}
use fanzloud.Control.Request.{bytes_eq, saturating_add}
use fanzloud.Control.Bytes.{codes}
use fanzloud.Control.HttpConfig.{trim_start, trim_end, padded}

abbrev pub Headers : Type 0
Headers = List (List ℕ × List ℕ)

-- `HeaderMap::get_all`.
unfoldable pub get_all : List ℕ → Headers → List (List ℕ)
get_all name [] = []
get_all name ((n, value) ∷ headers) =
    let rest = get_all name headers in if bytes_eq n name then value ∷ rest else rest

abbrev only : List (List ℕ) → Option (List ℕ)
only [] = none
only (value ∷ []) = some value
only (value ∷ _ ∷ _) = none

unfoldable pub single_header : Headers → List ℕ → Option (List ℕ)
single_header headers name = only (get_all name headers)

abbrev pub cookie_name : List ℕ
cookie_name = codes "__Host-codebox_p0"

abbrev pub cookie_token_bytes : ℕ
cookie_token_bytes = 43

-- `split` of a slice at each separator.
abbrev prepend : ℕ → List (List ℕ) → List (List ℕ)
prepend byte [] = (byte ∷ []) ∷ []
prepend byte (part ∷ parts) = (byte ∷ part) ∷ parts

unfoldable pub split : ℕ → List ℕ → List (List ℕ)
split separator [] = [] ∷ []
split separator (byte ∷ bytes) =
    let rest = split separator bytes in if byte == separator then [] ∷ rest else prepend byte rest

-- `position` of the separator, and `split_at` without it.
unfoldable pub split_once : ℕ → List ℕ → Option (List ℕ × List ℕ)
split_once separator [] = none
split_once separator (byte ∷ bytes) =
    let rest = split_once separator bytes in
    if byte == separator
    then some ([], bytes)
    else elim rest [ none ↦ none | some (name, value) ↦ some (byte ∷ name, value) ]

abbrev pub trim_ascii_space : List ℕ → List ℕ
trim_ascii_space value = trim_end (λ byte. byte == b' ') (trim_start (λ byte. byte == b' ') value)

pub record Candidate : Type 0 where
  pub candidate : List ℕ
  pub count : ℕ
  pub valid : Bool

abbrev pub take_value : Candidate → List ℕ → Candidate
take_value c value =
    if length value == cookie_token_bytes
    then record { candidate = value; count = saturating_add c.count 1; valid = true }
    else record c { count = saturating_add c.count 1 }

abbrev pub take_pair : Candidate → Option (List ℕ × List ℕ) → Candidate
take_pair c none = c
take_pair c (some (name, value)) = if bytes_eq name cookie_name then take_value c value else c

unfoldable pub take_part : Candidate → List ℕ → Candidate
unfolding split_once
take_part c part = take_pair c (split_once b'=' (trim_ascii_space part))

unfoldable pub take_parts : Candidate → List (List ℕ) → Candidate
take_parts c [] = c
take_parts c (part ∷ parts) = take_parts (take_part c part) parts

unfoldable pub take_values : Candidate → List (List ℕ) → Candidate
take_values c [] = c
take_values c (value ∷ values) = take_values (take_parts c (split b';' value)) values

abbrev pub no_candidate : Candidate
no_candidate = record { candidate = padded cookie_token_bytes []; count = 0; valid = false }

unfoldable pub parse_cookie : Headers → List ℕ × Bool
parse_cookie headers =
    let c = take_values no_candidate (get_all (codes "cookie") headers) in
    (c.candidate, c.valid && c.count == 1)
