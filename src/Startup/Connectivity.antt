-- ===== src/Startup/Connectivity.antt =====
-- When connectivityTest (pkg/lib/meshsync/meshsync.go) returns, and with what.
use meshsync.Common.{
  ◌∙◌, ◌++◌, ℕ, ◌+◌, ◌*◌, ◌<◌, ◌≤◌, String, ◌≡◌, ◌≢◌, refl, none, some, List, [], ◌∷◌, arith,
  length, All,
}
use meshsync.Errors.{Result, ok, err}
use meshsync.Startup.{Attempt, ping_broker, ping_until, connectivity_test}

abbrev pub second : ℕ
second = 1000000000

-- The first turn ends no earlier than it starts, and each further one at least the second of the
-- sleep later.
abbrev pub Ticks : ℕ → List Attempt → Type 0
Ticks start [] = Unit {0}
Ticks start (a ∷ attempts) = (start ≤ a.now) × Ticks (a.now + second) attempts

late_decides :
    (deadline : ℕ) (a : Attempt) (attempts : List Attempt)
    → deadline < a.now
    → ping_until deadline (a ∷ attempts) ≢ none
unfolding ping_until
late_decides deadline a attempts late = ground (arith, late)

goes_on :
    (deadline : ℕ) (a : Attempt) (attempts : List Attempt)
    → ping_until deadline attempts ≢ none
    → ping_until deadline (a ∷ attempts) ≢ none
unfolding ping_until
goes_on deadline a attempts h = ground (arith, h)

ping_until-decides :
    (deadline start : ℕ) (a : Attempt) (attempts : List Attempt)
    → Ticks start (a ∷ attempts)
    → deadline < start + length attempts * second
    → ping_until deadline (a ∷ attempts) ≢ none
ping_until-decides deadline start a [] t enough =
    late_decides deadline a [] (omega (arith, t.0, enough))
ping_until-decides deadline start a (b ∷ attempts) t enough =
    goes_on deadline a (b ∷ attempts)
      (ping_until-decides deadline (a.now + second) b attempts t.1 (omega (arith, t.0, enough)))

-- If a turn takes at least the second that the loop sleeps, the test has returned after as many
-- turns as the timeout has seconds, and two more, whatever the broker answers.
pub connectivity_test_returns :
    (host : Result String) (timeout start : ℕ) (attempts : List Attempt)
    → Ticks start attempts
    → timeout + second < length attempts * second
    → connectivity_test host timeout start attempts ≢ none
unfolding connectivity_test
connectivity_test_returns (err e) timeout start attempts t enough = cc
connectivity_test_returns (ok host) timeout start [] t enough = absurd (omega (arith, enough))
connectivity_test_returns (ok host) timeout start (a ∷ attempts) t enough =
    ping_until-decides (start + timeout) start a attempts t (omega (arith, enough))

-- Of a broker that does not answer in time: each turn failed, and ended by the deadline.
abbrev pub Fruitless : ℕ → List Attempt → Type 0
Fruitless deadline = All (λ a. (ping_broker a.answer ≢ none) × (a.now ≤ deadline))

ping_until_skips :
    (deadline : ℕ) (before attempts : List Attempt)
    → Fruitless deadline before
    → ping_until deadline (before ++ attempts) ≡ ping_until deadline attempts
unfolding ping_until
ping_until_skips deadline [] attempts h = refl
ping_until_skips deadline (a ∷ before) attempts h =
    ground (arith, h.0.0, h.0.1, ping_until_skips deadline before attempts h.1)

-- If the URL has a host and the first turns fail by the deadline, the test succeeds at the first
-- turn that the broker answers, even after the deadline.
pub connectivity_test_succeeds :
    (host : String) (timeout start : ℕ) (before : List Attempt) (a : Attempt) (rest : List Attempt)
    → Fruitless (start + timeout) before
    → ping_broker a.answer ≡ none
    → connectivity_test (ok host) timeout start (before ++ a ∷ rest) ≡ some none
unfolding connectivity_test
connectivity_test_succeeds host timeout start before a rest h answered =
    ping_until_skips (start + timeout) before (a ∷ rest) h
    ∙ (unfold ping_until in ground (arith, answered))
