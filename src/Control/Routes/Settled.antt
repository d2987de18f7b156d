-- ===== src/Control/Routes/Settled.antt =====
-- What the handlers of apps/control-plane/src/routes.rs leave of the operations that they admit.
use fanzloud.Base.{◌≡◌, Option, none, some, ok}
use fanzloud.Control.Request.{CachedResponse}
use fanzloud.Control.Registry.{Registry}
use fanzloud.Control.Registry as Idempotency
use fanzloud.Control.Lifecycle.{LifecycleState, admit}
use fanzloud.Control.Mutation.{Mutation}
use fanzloud.Control.Http.{Request}

-- A request that is answered leaves no operation active, and one that waits for another leaves one.
abbrev pub Settles : LifecycleState → Option CachedResponse → LifecycleState → Type 0
Settles before (some response) after = after ≡ before
Settles before none after = (after ≡ (admit before).0) × ((admit before).1 ≡ ok tt)
