-- ===== src/Handler/Factories.antt =====
-- The informer factories of the handler: New and GetListOptionsFunc of meshsync/meshsync.go, and
-- UpdateInformer and ShutdownInformer of meshsync/handlers.go. The factories that
-- GetDynamicInformer makes are numbered in the order of their making. An update is given the error
-- of dynamic.NewForConfig, if any. The other fields that New sets are its arguments.
pub mod Released
use meshsync.Common.{ℕ, ◌+◌, Option, none, some, List, [], ◌∷◌}
use meshsync.Errors.{Error, Result, ok, err, wrapped}

-- `informer` is the field of the handler, `made` how many factories were made, and `shut` those
-- that were shut down, the latest first.
pub record Factories : Type 0 where
  pub informer : Option ℕ
  pub made : ℕ
  pub shut : List ℕ

-- The function that changes nothing in the options of a list call.
unfoldable pub get_list_options_func : {C L : Type 0} → C → Result (L → L)
get_list_options_func config = ok (λ options. options)

-- The new factory, and what was made with it.
unfoldable pub get_dynamic_informer : Factories → ℕ × Factories
get_dynamic_informer f = (f.made, record f { made = f.made + 1 })

unfoldable pub set_informer : ℕ × Factories → Factories
set_informer (informer, f) = record f { informer = some informer }

unfoldable pub shutdown_informer : Factories → Factories
shutdown_informer f = elim f.informer [
  | none ↦ f
  | some informer ↦ record f { shut = informer ∷ f.shut }
]

module _ {C : Type 0} (L : Type 0) (config : C) where
  unfoldable pub new : Factories → Result Factories
  unfolding get_list_options_func get_dynamic_informer set_informer
  new f = elim (get_list_options_func {L = L} config) [
    | err e ↦ err e
    | ok list_options_func ↦ ok (set_informer (get_dynamic_informer f))
  ]

  unfoldable pub update_informer : Option Error → Factories → Option Error × Factories
  unfolding get_list_options_func get_dynamic_informer set_informer shutdown_informer
  update_informer (some e) f =
      (some (wrapped "failed to create new dynamic client for informer" e), f)
  update_informer none f = elim (get_list_options_func {L = L} config) [
    | err e ↦ (some (wrapped "failed to get list options func for informer" e), f)
    | ok list_options_func ↦ (none, set_informer (get_dynamic_informer (shutdown_informer f)))
  ]
