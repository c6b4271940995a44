-- ===== src/Tests/StartupTests.antt =====
-- pkg/lib/meshsync/meshsync.go on concrete attempts.
use meshsync.Common.{ℕ, String, ◌≡◌, ◌≢◌, refl, none, List, [], ◌∷◌, arith}
use meshsync.Common.Text.{contains_text, concat}
use meshsync.Errors.{message, Result, ok, err}
use meshsync.Startup.{Attempt, connectivity_test, broker_host}
use meshsync.Startup.Connectivity.{connectivity_test_returns}

abbrev refused_at : ℕ → Attempt
refused_at now = record { answer = err (message "refused"); now = now }

abbrev refusals : List Attempt
refusals = refused_at 0 ∷ refused_at 1000000000 ∷ refused_at 2000000000 ∷ []

connectivity_test_returns_example : connectivity_test (ok "nats") 1000000000 0 refusals ≢ none
connectivity_test_returns_example =
    connectivity_test_returns (ok "nats") 1000000000 0 refusals
      (omega arith, (omega arith, (omega arith, tt))) (omega arith)

abbrev parse : String → Result String
parse url = ok url

abbrev nats_host : String → String
nats_host url = url

scheme_added : broker_host parse nats_host "broker:4222" ≡ ok "nats://broker:4222"
unfolding broker_host contains_text concat
scheme_added = refl
