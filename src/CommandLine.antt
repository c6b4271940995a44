-- ===== src/CommandLine.antt =====
-- main.go: the flags, the level of the log and the call of the library. The package flag parses the
-- command line: the values of the flags are an argument. `H` and `C` are the types of broker
-- handlers and contexts of the library.
pub mod Lists
use meshsync.Common.{
  ℕ, String, Bool, true, false, ◌||◌, Option, none, some, List, [], ◌∷◌, ◌==◌, if◌then◌else◌,
}
use meshsync.Common.Int.{ℤ}
use meshsync.Common.Text.{split, to_lower, trim_space}
use meshsync.Errors.{Error}
use meshsync.Startup.Options.{
  Options, OptionsSetter, with_output_mode, with_output_file_name, with_only_k8s_namespaces,
  with_only_k8s_resources, with_stop_after_duration, with_version, with_ping_endpoint,
  with_meshkit_config_provider,
}
use meshsync.Startup.Run.Externals.{Env}
use meshsync.Startup.Run.{run}
use meshsync.Startup.Run.Effects.{World, Outcome, returned, failed, panicked, waiting}

-- The value of -broker-url is not used.
pub record Flags : Type 0 where
  pub output : String
  pub output_file : String
  pub output_namespaces : String
  pub output_resources : String
  pub stop_after : ℤ

pub record Params : Type 0 where
  pub output_mode : String
  pub output_file_name : String
  pub output_namespaces : List String
  pub output_resources : List String
  pub stop_after_duration : ℤ

-- A list in a flag, nil if there is nothing but white space.
unfoldable pub list_of : String → List String
list_of flag = let trimmed = trim_space flag in if trimmed == "" then [] else split b',' trimmed

unfoldable pub parse_flags : Flags → Params
unfolding list_of
parse_flags f = record {
  output_mode = f.output;
  output_file_name = f.output_file;
  output_namespaces = list_of f.output_namespaces;
  output_resources = list_of f.output_resources;
  stop_after_duration = f.stop_after;
}

abbrev ping_endpoint : String
ping_endpoint = ":8222/connz"

-- Whether the level is debug, of the environment variable DEBUG.
unfoldable pub debug_level : String → Bool
debug_level debug = to_lower debug == "true" || debug == "1"

module _ {H C : Type 0} (version provider : String) where
  unfoldable pub setters : Params → List (Option (OptionsSetter H C))
  setters p =
      some (with_output_mode p.output_mode)
      ∷ some (with_output_file_name p.output_file_name)
      ∷ some (with_only_k8s_namespaces p.output_namespaces)
      ∷ some (with_only_k8s_resources p.output_resources)
      ∷ some (with_stop_after_duration p.stop_after_duration)
      ∷ some (with_version version)
      ∷ some (with_ping_endpoint ping_endpoint)
      ∷ some (with_meshkit_config_provider provider)
      ∷ []

-- The status with which the process exits: none while it runs, and 2 after a panic.
unfoldable pub exit_status : {A : Type 0} → Outcome A → Option ℕ
exit_status (returned a) = some 0
exit_status (failed e) = some 1
exit_status panicked = some 2
exit_status waiting = none

unfoldable pub main :
    {H C K V B : Type 0}
    → Env H C K V B
    → String
    → String
    → Options H C
    → Flags
    → World H B
    → Option ℕ × World H B
unfolding setters parse_flags
main env version provider defaults flags w =
    let (o, after) = run env defaults (setters version provider (parse_flags flags)) w in
    (exit_status o, after)
