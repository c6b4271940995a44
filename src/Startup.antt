-- ===== src/Startup.antt =====
-- How the library entry point (pkg/lib/meshsync/meshsync.go) waits for the broker and picks the
-- configuration. url.Parse, the GET of the monitoring endpoint, strconv.ParseBool and the reads of
-- the custom resource are arguments. Times are in nanoseconds.
pub mod Connectivity
pub mod Options
pub mod Health
pub mod Outputs
pub mod Run
pub mod Delivery
pub mod Consumer
use meshsync.Common.{
  ℕ, ◌+◌, String, Bool, true, false, not, Option, none, some, List, [], ◌∷◌, ltb, nat_eq,
  if◌then◌else◌, ◌==◌,
}
use meshsync.Common.Text.{contains_text, concat}
use meshsync.Errors.{Error, message, joined, Errors, Result, ok, err, ◌>>=◌, wrapped}
use meshsync.Config.{MeshsyncConfig}

module _ {Url : Type 0} (parse_url : String → Result Url) (hostname : Url → String) where
  host_of : String → Result Url → Result String
  host_of broker_url (err e) = err (wrapped (concat ("invalid broker url " ∷ broker_url ∷ [])) e)
  host_of broker_url (ok u) =
      if hostname u == ""
      then err (message (concat ("no host found in broker url " ∷ broker_url ∷ [])))
      else ok (hostname u)

  unfoldable pub broker_host : String → Result String
  unfolding host_of
  broker_host broker_url =
      let raw_url =
        if contains_text broker_url "://"
        then broker_url
        else concat ("nats://" ∷ broker_url ∷ []) in
      host_of broker_url (parse_url raw_url)

-- What http.Client.Get returns.
pub record Response : Type 0 where
  pub status_code : ℕ
  pub status : String

unfoldable pub ping_broker : Result Response → Option Error
ping_broker (err e) = some e
ping_broker (ok resp) =
    if nat_eq resp.status_code 200
    then none
    else some (message (concat ("unexpected response status " ∷ resp.status ∷ [])))

-- One turn of the loop: what the GET returns, and the time after it.
pub record Attempt : Type 0 where
  pub answer : Result Response
  pub now : ℕ

-- The loop over the turns that there is time for: none if they do not decide.
unfoldable pub ping_until : ℕ → List Attempt → Option (Option Error)
unfolding ping_broker
ping_until deadline [] = none
ping_until deadline (a ∷ attempts) = elim (ping_broker a.answer) [
  | none ↦ some none
  | some e ↦ elim (ltb deadline a.now) [
    | true ↦ some (some (wrapped "broker connectivity test did not succeed" e))
    | false ↦ ping_until deadline attempts
  ]
]

unfoldable pub connectivity_test : Result String → ℕ → ℕ → List Attempt → Option (Option Error)
connectivity_test (err e) timeout start attempts = some (some e)
connectivity_test (ok host) timeout start attempts = ping_until (start + timeout) attempts

-- brokerContentDedupEnabled, of the text of the environment variable.
unfoldable pub broker_content_dedup_enabled : (String → Result Bool) → String → Bool
broker_content_dedup_enabled parse_bool text = elim (parse_bool text) [ err e ↦ false | ok b ↦ b ]

-- determineUseCRDFlag: whether GetMeshsyncCRD gives a resource.
unfoldable pub determine_use_crd_flag {ℓ} : {R : Type ℓ} → Result (Option R) → Bool
determine_use_crd_flag (err e) = false
determine_use_crd_flag (ok none) = false
determine_use_crd_flag (ok (some crd)) = true

unfoldable pub get_meshsync_crd_configs :
    Bool → Result MeshsyncConfig → Result MeshsyncConfig → Result MeshsyncConfig
get_meshsync_crd_configs use_crd_flag from_crd local = if use_crd_flag then from_crd else local
