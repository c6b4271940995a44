-- ===== src/Startup/Options.antt =====
-- pkg/lib/meshsync/options.go. `H` is the type of broker handlers and `C` that of contexts; the
-- background context is an argument. A nil slice of bytes is `none`, durations are in nanoseconds.
use meshsync.Common.{
  String, ◌≡◌, refl, ap, ◌∙◌, Bool, false, Option, none, some, List, [], ◌∷◌, ◌++◌,
}
use meshsync.Common.Int.{ℤ, negsuc}

pub record Options (H C : Type 0) : Type 0 where
  pub output_mode : String
  pub stop_after_duration : ℤ
  pub kube_config : Option String
  pub output_file_name : String
  pub output_extended_file : Bool
  pub broker_handler : Option H
  pub context : C
  pub only_k8s_namespaces : List String
  pub only_k8s_resources : List String
  pub version : String
  pub ping_endpoint : String
  pub meshkit_config_provider : String

abbrev pub output_mode_broker : String
output_mode_broker = "broker"

abbrev pub output_mode_file : String
output_mode_file = "file"

abbrev pub allowed_output_modes : List String
allowed_output_modes = output_mode_broker ∷ output_mode_file ∷ []

abbrev pub OptionsSetter : Type 0 → Type 0 → Type 0
OptionsSetter H C = Options H C → Options H C

module _ {H C : Type 0} where
  unfoldable pub default_options : C → String → Options H C
  default_options background viper_key = record {
    output_mode = "";
    stop_after_duration = negsuc 0;
    kube_config = none;
    output_file_name = "";
    output_extended_file = false;
    broker_handler = none;
    context = background;
    only_k8s_namespaces = [];
    only_k8s_resources = [];
    version = "Not Set";
    ping_endpoint = ":8222/connz";
    meshkit_config_provider = viper_key;
  }

  abbrev pub with_output_mode : String → OptionsSetter H C
  with_output_mode value o = record o { output_mode = value }

  abbrev pub with_stop_after_duration : ℤ → OptionsSetter H C
  with_stop_after_duration value o = record o { stop_after_duration = value }

  abbrev pub with_kube_config : Option String → OptionsSetter H C
  with_kube_config value o = record o { kube_config = value }

  abbrev pub with_output_file_name : String → OptionsSetter H C
  with_output_file_name value o = record o { output_file_name = value }

  abbrev pub with_output_extended_file : Bool → OptionsSetter H C
  with_output_extended_file value o = record o { output_extended_file = value }

  abbrev pub with_broker_handler : Option H → OptionsSetter H C
  with_broker_handler value o = record o { broker_handler = value }

  abbrev pub with_context : C → OptionsSetter H C
  with_context value o = record o { context = value }

  abbrev pub with_only_k8s_namespaces : List String → OptionsSetter H C
  with_only_k8s_namespaces value o = record o { only_k8s_namespaces = value }

  abbrev pub with_only_k8s_resources : List String → OptionsSetter H C
  with_only_k8s_resources value o = record o { only_k8s_resources = value }

  abbrev pub with_version : String → OptionsSetter H C
  with_version value o = record o { version = value }

  abbrev pub with_ping_endpoint : String → OptionsSetter H C
  with_ping_endpoint value o = record o { ping_endpoint = value }

  abbrev pub with_meshkit_config_provider : String → OptionsSetter H C
  with_meshkit_config_provider value o = record o { meshkit_config_provider = value }

  -- The loop of Run over the setters: a nil setter is passed over.
  unfoldable pub set_options : List (Option (OptionsSetter H C)) → Options H C → Options H C
  set_options [] o = o
  set_options (none ∷ setters) o = set_options setters o
  set_options (some set ∷ setters) o = set_options setters (set o)

  -- No setter of the list changes what `field` reads.
  abbrev pub Keeps : {A : Type 0} → (Options H C → A) → List (Option (OptionsSetter H C)) → Type 0
  Keeps field [] = Unit {0}
  Keeps field (none ∷ setters) = Keeps field setters
  Keeps field (some set ∷ setters) =
      ((o : Options H C) → field (set o) ≡ field o) × Keeps field setters

  set_options-append :
      (before after : List (Option (OptionsSetter H C))) (o : Options H C)
      → set_options (before ++ after) o ≡ set_options after (set_options before o)
  unfolding set_options
  set_options-append [] after o = refl
  set_options-append (none ∷ before) after o = set_options-append before after o
  set_options-append (some set ∷ before) after o = set_options-append before after (set o)

  set_options-Keeps :
      {A : Type 0} (field : Options H C → A) (setters : List (Option (OptionsSetter H C)))
      (o : Options H C)
      → Keeps field setters
      → field (set_options setters o) ≡ field o
  unfolding set_options
  set_options-Keeps field [] o k = refl
  set_options-Keeps field (none ∷ setters) o k = set_options-Keeps field setters o k
  set_options-Keeps field (some set ∷ setters) o k =
      set_options-Keeps field setters (set o) k.1 ∙ k.0 o

  -- An option has the value that the last setter of it gives, whatever the setters before it do,
  -- if the ones after it leave it alone.
  pub last_setter_wins :
      {A : Type 0} (field : Options H C → A) (set : OptionsSetter H C) (value : A)
      (before after : List (Option (OptionsSetter H C))) (o : Options H C)
      → ((p : Options H C) → field (set p) ≡ value)
      → Keeps field after
      → field (set_options (before ++ some set ∷ after) o) ≡ value
  unfolding set_options
  last_setter_wins field set value before after o sets k =
      ap field (set_options-append before (some set ∷ after) o)
      ∙ (set_options-Keeps field after (set (set_options before o)) k ∙ sets (set_options before o))
