-- ===== src/Startup/Health.antt =====
-- pkg/lib/meshsync/health.go: the state of the health server and what its handler answers. The
-- multiplexer of net/http answers 404 where no pattern is the path.
use meshsync.Common.{ℕ, String, Bool, true, false, ◌==◌, if◌then◌else◌}

pub record HealthServer : Type 0 where
  pub ready : Bool

pub record Response : Type 0 where
  pub status : ℕ
  pub body : String

unfoldable pub new_health_server : HealthServer
new_health_server = record { ready = false }

unfoldable pub mark_ready : HealthServer → HealthServer
mark_ready h = record { ready = true }

unfoldable pub handler : HealthServer → String → Response
handler h path =
    if path == "/healthz"
    then record { status = 200; body = "ok" }
    else if path == "/readyz"
    then (if h.ready
        then record { status = 200; body = "ok" }
        else record { status = 503; body = "not ready" })
    else record { status = 404; body = "404 page not found\n" }
