-- ===== src/Model/Secrets.antt =====
-- The redaction of Secrets in pkg/model/model_converter.go. `unmarshal` decodes a JSON object into
-- its fields, `marshal` encodes a map of texts; each gives `none` where encoding/json fails.
use meshsync.Common.{
  String, ◌≡◌, refl, ap, Bool, ◌||◌, List, [], ◌∷◌, Option, none, some, map, arith, ◌==◌,
  if◌then◌else◌, ◌≢◌, eq_iff,
}
use meshsync.Common.Dict.{Dict, keys}
use meshsync.Common.Text.{to_lower}

abbrev pub redacted_secret_placeholder : String
redacted_secret_placeholder = "[REDACTED]"

abbrev pub secret_kind : String
secret_kind = "Secret"

-- `v` is the environment's MESHSYNC_REDACT_SECRETS, "" if it is not set.
unfoldable pub redact_secrets_enabled : String → Bool
redact_secrets_enabled v = to_lower v == "true" || v == "1"

redact_values : Dict String → Dict String
redact_values [] = []
redact_values ((key, raw) ∷ kv) = (key, redacted_secret_placeholder) ∷ redact_values kv

module _ (unmarshal : String → Option (Dict String)) (marshal : Dict String → Option String) where
  or_raw : String → Option String → String
  or_raw raw none = raw
  or_raw raw (some out) = out

  redact_decoded : String → Option (Dict String) → String
  unfolding redact_values or_raw
  redact_decoded raw none = raw
  redact_decoded raw (some kv) = or_raw raw (marshal (redact_values kv))

  unfoldable pub redact_secret_data : String → String
  unfolding redact_decoded
  redact_secret_data raw = if raw == "" then "" else redact_decoded raw (unmarshal raw)

-- The placeholder under each of these keys.
abbrev pub placeholders : List String → Dict String
placeholders = map (λ k. (k, redacted_secret_placeholder))

redact_values-placeholders : (kv : Dict String) → redact_values kv ≡ placeholders (keys kv)
unfolding redact_values
redact_values-placeholders [] = refl
redact_values-placeholders ((k, v) ∷ kv) =
    ap (◌∷◌ (k, redacted_secret_placeholder)) (redact_values-placeholders kv)

module _ (unmarshal : String → Option (Dict String)) (marshal : Dict String → Option String)
    (marshal_total : (kv : Dict String) → (out : String) × (marshal kv ≡ some out)) where
  -- If maps of texts always encode, the redacted text of a JSON object is the encoding of its keys
  -- with placeholders, whatever the values were.
  pub redact_secret_data-object :
      (raw : String) (kv : Dict String)
      → raw ≢ ""
      → unmarshal raw ≡ some kv
      → some (redact_secret_data unmarshal marshal raw) ≡ marshal (placeholders (keys kv))
  unfolding redact_secret_data
  redact_secret_data-object raw kv nonempty decoded = ground (
    arith,
    eq_iff raw "",
    redact_values-placeholders kv,
    (marshal_total (placeholders (keys kv))).1,
  )

  -- So two Secrets with the same keys cannot be told apart after redaction.
  pub redaction_hides_values :
      (raw raw' : String) (kv kv' : Dict String)
      → raw ≢ ""
      → raw' ≢ ""
      → unmarshal raw ≡ some kv
      → unmarshal raw' ≡ some kv'
      → keys kv ≡ keys kv'
      → redact_secret_data unmarshal marshal raw ≡ redact_secret_data unmarshal marshal raw'
  redaction_hides_values raw raw' kv kv' n n' d d' same =
      cc (redact_secret_data-object raw kv n d, redact_secret_data-object raw' kv' n' d')
