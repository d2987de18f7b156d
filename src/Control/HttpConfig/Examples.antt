-- ===== src/Control/HttpConfig/Examples.antt =====
-- One bootstrap token of apps/control-plane/src/config.rs, and the theorem at it.
use fanzloud.Base.{ℕ, ◌≡◌, refl, ◌↔◌, true, false, none, some, List, ok}
use fanzloud.Control.Bytes.{codes}
use fanzloud.Control.HttpConfig.{OperatorBootstrapToken, padded, try_new, matches}
use fanzloud.Control.HttpConfig.Bootstrap.{matches_exact}

abbrev secret : List ℕ
secret = codes "0123456789abcdef0123456789abcdef"

abbrev token : OperatorBootstrapToken
token = record { bytes = padded 128 secret; len = 32 }

secret_fits : try_new secret ≡ ok token
unfolding try_new padded
secret_fits = refl

matches_exact_example :
    ((given : List ℕ) → (matches token (some given) ≡ true) ↔ (given ≡ secret))
    × (matches token none ≡ false)
matches_exact_example = matches_exact secret token secret_fits
