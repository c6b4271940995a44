-- ===== src/Config/WatchList/Selection.antt =====
-- What the two filters of internal/config/crd_config.go select.
use meshsync.Common.{
  ◌+◌, String, ◌≡◌, refl, Bool, true, false, not, List, [], ◌∷◌, Option, none, some, map, arith,
  any, keep, All, length, ◌==◌, eq_iff, if◌then◌else◌,
}
use meshsync.Config.{PipelineConfig, PipelineConfigs, ResourceConfig}
use meshsync.Config.Defaults.{default_events}
use meshsync.Config.WatchList.{
  index_func, append_selected, filter_whitelisted_pipelines, filter_blacklisted_pipelines,
}

abbrev pub names : PipelineConfigs → List String
names = map (λ p. p.name)

abbrev pub resources : List ResourceConfig → List String
resources = map (λ c. c.resource)

abbrev pub listed : List String → String → Bool
listed l name = any (λ c. c == name) l

abbrev pub found {ℓ} : {A : Type ℓ} → Option A → Bool
found none = false
found (some a) = true

index_func-found :
    (wl : List ResourceConfig) (name : String)
    → found (index_func wl name) ≡ listed (resources wl) name
unfolding index_func
index_func-found [] name = refl
index_func-found (c ∷ wl) name = ground (arith, index_func-found wl name)

-- An entry that is found has the name that was looked for.
index_func-resource :
    (wl : List ResourceConfig) (name : String) (c : ResourceConfig)
    → index_func wl name ≡ some c
    → c.resource ≡ name
unfolding index_func
index_func-resource [] name c h = ground arith
index_func-resource (d ∷ wl) name c h =
    ground (arith, index_func-resource wl name c, eq_iff d.resource name)

-- The entry that decides a pipeline's events: the first of that name.
abbrev pub FromEntry : List ResourceConfig → PipelineConfig → Type 0
FromEntry wl v = index_func wl v.name ≡ some (record { resource = v.name; events = v.events })

append_selected-names :
    (v : PipelineConfig) (o : Option ResourceConfig) (rest : PipelineConfigs)
    → names (append_selected v o rest) ≡ (if found o then v.name ∷ names rest else names rest)
unfolding append_selected
append_selected-names v none rest = refl
append_selected-names v (some c) rest = refl

append_selected-All :
    (wl : List ResourceConfig) (v : PipelineConfig) (o : Option ResourceConfig)
    (rest : PipelineConfigs)
    → index_func wl v.name ≡ o
    → All (FromEntry wl) rest
    → All (FromEntry wl) (append_selected v o rest)
unfolding append_selected
append_selected-All wl v none rest e h = h
append_selected-All wl v (some c) rest e h = (ground (arith, index_func-resource wl v.name c e), h)

-- The whitelist keeps exactly the pipelines whose names it lists, in the order of the pipelines,
-- each with the events of the first whitelist entry of its name.
pub whitelist_selects :
    (ps : PipelineConfigs) (wl : List ResourceConfig)
    → let kept = filter_whitelisted_pipelines ps wl in
      (names kept ≡ keep (listed (resources wl)) (names ps)) × All (FromEntry wl) kept
unfolding filter_whitelisted_pipelines
whitelist_selects [] wl = (refl, tt)
whitelist_selects (v ∷ ps) wl =
    let rest = filter_whitelisted_pipelines ps wl in
    let (same, from) = whitelist_selects ps wl in
    (
      ground (
        arith,
        append_selected-names v (index_func wl v.name) rest,
        index_func-found wl v.name,
        same,
      ),
      append_selected-All wl v (index_func wl v.name) rest refl from,
    )

-- The blacklist drops exactly the pipelines whose names it lists, keeps the order of the others,
-- and gives each of them the three default events.
pub blacklist_selects :
    (ps : PipelineConfigs) (bl : List String)
    → let kept = filter_blacklisted_pipelines ps bl in
      (names kept ≡ keep (λ n. not (listed bl n)) (names ps))
      × All (λ v. v.events ≡ default_events) kept
unfolding filter_blacklisted_pipelines
blacklist_selects [] bl = (refl, tt)
blacklist_selects (v ∷ ps) bl =
    let (same, events) = blacklist_selects ps bl in (ground (arith, same), ground (arith, events))

length-append_selected :
    (v : PipelineConfig) (o : Option ResourceConfig) (rest : PipelineConfigs)
    → length (append_selected v o rest) ≡ (if found o then length rest + 1 else length rest)
unfolding append_selected
length-append_selected v none rest = refl
length-append_selected v (some c) rest = omega arith

-- A whitelist and the blacklist of the same names split the pipelines: each pipeline is kept by
-- one of them and dropped by the other.
pub lists_partition :
    (ps : PipelineConfigs) (wl : List ResourceConfig)
    → length (filter_whitelisted_pipelines ps wl)
        + length (filter_blacklisted_pipelines ps (resources wl))
      ≡ length ps
unfolding filter_whitelisted_pipelines filter_blacklisted_pipelines
lists_partition [] wl = omega arith
lists_partition (v ∷ ps) wl = ground (
  arith,
  lists_partition ps wl,
  index_func-found wl v.name,
  length-append_selected v (index_func wl v.name) (filter_whitelisted_pipelines ps wl),
)
