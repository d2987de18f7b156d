-- ===== src/Session/Config.antt =====
-- crates/codebox-session-runtime/src/config.rs: the bounds of a session. A `Duration` is its
-- nanoseconds; the lengths are `usize` values.
use fanzloud.Base.{ℕ, ◌*◌, ◌^◌, ◌≤◌, ◌≡◌, Bool, ◌&&◌, Result, ok, ◌>>◌, ensure, leb, arith}
use fanzloud.Session.Error.Category.{P0SessionConfigField}
use fanzloud.Session.Error.{P0SessionError, invalid_config}

abbrev millis : ℕ → ℕ
millis n = n * 10 ^ 6

abbrev secs : ℕ → ℕ
secs n = n * 10 ^ 9

abbrev pub max_backoff : ℕ
max_backoff = secs 60

abbrev default_poll_interval : ℕ
default_poll_interval = secs 2

abbrev min_poll_interval : ℕ
min_poll_interval = millis 250

abbrev max_poll_interval : ℕ
max_poll_interval = secs 60

abbrev default_history_capacity : ℕ
default_history_capacity = 256

abbrev min_history_capacity : ℕ
min_history_capacity = 64

abbrev max_history_capacity : ℕ
max_history_capacity = 1024

abbrev default_max_subscribers : ℕ
default_max_subscribers = 8

abbrev min_max_subscribers : ℕ
min_max_subscribers = 1

abbrev max_max_subscribers : ℕ
max_max_subscribers = 32

abbrev default_live_capacity : ℕ
default_live_capacity = 32

abbrev min_live_capacity : ℕ
min_live_capacity = 8

abbrev max_live_capacity : ℕ
max_live_capacity = 256

pub record P0SessionConfig : Type 0 where
  pub poll_interval : ℕ
  pub history_capacity : ℕ
  pub max_subscribers : ℕ
  pub live_capacity : ℕ

-- `(lo..=hi).contains(&x)`.
abbrev contains : ℕ → ℕ → ℕ → Bool
contains lo hi x = leb lo x && leb x hi

unfoldable pub try_new : ℕ → ℕ → ℕ → ℕ → Result P0SessionError P0SessionConfig
try_new poll_interval history_capacity max_subscribers live_capacity = do
  ensure (contains min_poll_interval max_poll_interval poll_interval)
      (invalid_config P0SessionConfigField.poll_interval)
  ensure (contains min_history_capacity max_history_capacity history_capacity)
      (invalid_config P0SessionConfigField.history_capacity)
  ensure (contains min_max_subscribers max_max_subscribers max_subscribers)
      (invalid_config P0SessionConfigField.max_subscribers)
  ensure (contains min_live_capacity max_live_capacity live_capacity)
      (invalid_config P0SessionConfigField.live_capacity)
  ok (record {
    poll_interval = poll_interval;
    history_capacity = history_capacity;
    max_subscribers = max_subscribers;
    live_capacity = live_capacity;
  })

abbrev pub default : P0SessionConfig
default = record {
  poll_interval = default_poll_interval;
  history_capacity = default_history_capacity;
  max_subscribers = default_max_subscribers;
  live_capacity = default_live_capacity;
}

-- What the session relies on: every bound of an accepted configuration.
pub record InBounds (c : P0SessionConfig) : Type 0 where
  pub poll_floor : min_poll_interval ≤ c.poll_interval
  pub poll_ceiling : c.poll_interval ≤ max_poll_interval
  pub history_floor : min_history_capacity ≤ c.history_capacity
  pub history_ceiling : c.history_capacity ≤ max_history_capacity
  pub subscribers_floor : min_max_subscribers ≤ c.max_subscribers
  pub subscribers_ceiling : c.max_subscribers ≤ max_max_subscribers
  pub live_floor : min_live_capacity ≤ c.live_capacity
  pub live_ceiling : c.live_capacity ≤ max_live_capacity

-- A configuration that `try_new` returns is within every bound.
pub try_new-InBounds :
    (poll history subscribers live : ℕ) (c : P0SessionConfig)
    → try_new poll history subscribers live ≡ ok c
    → InBounds c
unfolding try_new
try_new-InBounds poll history subscribers live c h = ground arith

-- `try_new` accepts the values of every configuration within the bounds, and keeps them unchanged.
pub try_new_accepts :
    (c : P0SessionConfig)
    → InBounds c
    → try_new c.poll_interval c.history_capacity c.max_subscribers c.live_capacity ≡ ok c
unfolding try_new
try_new_accepts c b = ground arith
