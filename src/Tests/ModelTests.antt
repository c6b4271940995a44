-- ===== src/Tests/ModelTests.antt =====
-- pkg/model on concrete resources.
use meshsync.Common.{
  String, ◌≡◌, Bool, refl, true, false, Option, none, some, List, [], ◌∷◌, if◌then◌else◌, ◌==◌,
}
use meshsync.Common.Dict.{Dict, keys}
use meshsync.Common.Text.{concat, to_lower}
use meshsync.Errors.{message, ok, err}
use meshsync.Broker
use meshsync.Model.{KubernetesResource}
use meshsync.Model.Secrets.{redact_secrets_enabled, secret_kind}
use meshsync.Model.Service.{has_processor}
use meshsync.Model.Convert.{
  Codec, Entry, or_old, parse_list, read_object, run_processor, read_contents, shipped, redacts,
}
use meshsync.Model.Convert.Redaction.{parse_list_hides_values, DifferInValues}
use meshsync.Model.Convert.Panics.{parse_list_panics, is_nil, lacks_part}
use meshsync.Tests.Fixtures.{resource, meta_of}

-- A codec whose texts are Secrets with one password: the text is the value, and stands at its own
-- path, in the data, and in the whole text.
abbrev contents_of : String → List String → Option String
contents_of bytes [] = some (concat ("{data:{password:" ∷ bytes ∷ "}}" ∷ []))
contents_of bytes (key ∷ []) =
    if key == "data" then some (concat ("{password:" ∷ bytes ∷ "}" ∷ [])) else none
contents_of bytes (key ∷ name ∷ []) =
    if key == "data" then (if name == "password" then some bytes else none) else none
contents_of bytes _ = none

abbrev entries_of : String → List String → List Entry
entries_of bytes (key ∷ []) =
    if key == "data" then record { key = "password"; value = bytes; is_string = true } ∷ [] else []
entries_of bytes _ = []

abbrev one_entry : String → Option (Dict String)
one_entry raw = some (("password", raw) ∷ [])

abbrev key_texts : Dict String → Option String
key_texts kv = some (concat (keys kv))

abbrev pub secrets : Codec String
secrets = record {
  unmarshal = λ bytes. resource secret_kind (some (meta_of "login" "u1"));
  get = contents_of;
  object_each = entries_of;
  parse_string = λ value. none;
  uuid_from_bytes = λ value. value;
  design_id_label = "design-id";
  unmarshal_object = one_entry;
  marshal_texts = key_texts;
  unmarshal_service = λ bytes. err (message "no service");
  get_endpoint = λ service. ok none;
  is_request_uri = λ url. true;
}

pub same_but_values : DifferInValues secrets "hunter2" "letmein"
unfolding concat
same_but_values = record {
  kind = refl;
  decoded = refl;
  labels = refl;
  annotations = refl;
  finalizers = refl;
  owners = refl;
  spec = refl;
  status = refl;
  immutable = refl;
  resource_type = refl;
  in_data = (
    cc,
    cc,
    (
      ("password", "{password:hunter2}") ∷ [],
      ("password", "{password:letmein}") ∷ [],
      refl,
      refl,
      refl,
    ),
  );
  in_binary_data = tt;
  in_string_data = tt;
}

-- The two Secrets differ in the value itself, in their data and as a whole.
abbrev same_at : List String → Bool
same_at path = or_old "" (secrets.get "hunter2" path) == or_old "" (secrets.get "letmein" path)

values_differ :
    (same_at ("data" ∷ "password" ∷ []) ≡ false)
    × (same_at ("data" ∷ []) ≡ false)
    × (same_at [] ≡ false)
unfolding concat
values_differ = (refl, refl, refl)

pub redaction_on : redact_secrets_enabled "TRUE" ≡ true
unfolding redact_secrets_enabled to_lower
redaction_on = refl

parse_list_hides_values_example :
    parse_list secrets "TRUE" "hunter2" Broker.add "c1"
    ≡ parse_list secrets "TRUE" "letmein" Broker.add "c1"
parse_list_hides_values_example =
    parse_list_hides_values secrets (λ kv. (concat (keys kv), refl)) "TRUE" "hunter2" "letmein"
      Broker.add "c1" redaction_on same_but_values

parse_list_panics_example :
    is_nil (parse_list secrets "" "hunter2" Broker.add "c1") ≡ lacks_part secrets "hunter2"
parse_list_panics_example = parse_list_panics secrets "" "hunter2" Broker.add "c1"

abbrev pub parsed : KubernetesResource
parsed = record (resource secret_kind (some (record (meta_of "login" "u1") { labels = [] }))) {
  raw_data = "{password:hunter2}";
}

pub parses : parse_list secrets "" "hunter2" Broker.add "c1" ≡ some parsed
unfolding parse_list read_object run_processor has_processor read_contents shipped redacts
    redact_secrets_enabled to_lower concat
parses = refl
