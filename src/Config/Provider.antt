-- ===== src/Config/Provider.antt =====
-- New of internal/config/config.go. The providers of meshkit are arguments, as is the creation of
-- the directory for the configuration. A nil handler is `none`.
use meshsync.Common.{String, Option, none, some, ◌==◌, if◌then◌else◌}
use meshsync.Errors.{Error, Result, ok, err, map_err}
use meshsync.Config.{err_init_config}

abbrev then_some : {P : Type 0} → Result P → Result (Option P)
then_some (ok p) = ok (some p)
then_some (err e) = err e

module _ {P : Type 0} (viper_key in_mem_key : String) (create_directory : Option Error)
    (new_viper new_in_mem : Result P) where
  choose : String → Result (Option P)
  choose provider =
      if provider == viper_key
      then map_err err_init_config (then_some new_viper)
      else if provider == in_mem_key
      then map_err err_init_config (then_some new_in_mem)
      else ok none

  unfoldable pub new : String → Result (Option P)
  unfolding choose
  new provider = elim create_directory [ some e ↦ err (err_init_config e) | none ↦ choose provider ]
