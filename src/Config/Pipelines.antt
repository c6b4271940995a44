-- ===== src/Config/Pipelines.antt =====
-- The methods of `PipelineConfigs` (internal/config/types.go) and their laws.
use meshsync.Common.{
  ◌+◌, String, ◌≡◌, refl, ◌≢◌, Bool, true, false, ◌||◌, [], ◌∷◌, ◌++◌, arith, ◌==◌, eq_iff,
  if◌then◌else◌, any, any-append, length,
}
use meshsync.Config.{PipelineConfig, PipelineConfigs}

unfoldable pub add : PipelineConfigs → PipelineConfig → PipelineConfigs
add p pc = p ++ pc ∷ []

unfoldable pub contains : PipelineConfigs → String → Bool
contains p name = any (λ pc. pc.name == name) p

-- The loop stops at the first pipeline of that name.
unfoldable pub delete : PipelineConfigs → PipelineConfig → PipelineConfigs
delete [] pc = []
delete (p ∷ ps) pc = if p.name == pc.name then ps else p ∷ delete ps pc

-- Names are distinct.
abbrev pub IsUnique : PipelineConfigs → Type 0
IsUnique [] = Unit {0}
IsUnique (p ∷ ps) = (contains ps p.name ≡ false) × IsUnique ps

pub contains-add :
    (p : PipelineConfigs) (pc : PipelineConfig) (name : String)
    → contains (add p pc) name ≡ (contains p name || pc.name == name)
unfolding contains add
contains-add p pc name =
    ground (arith, any-append (λ (q : PipelineConfig). q.name == name) p (pc ∷ []))

pub contains-delete_ne :
    (p : PipelineConfigs) (pc : PipelineConfig) (name : String)
    → pc.name ≢ name
    → contains (delete p pc) name ≡ contains p name
unfolding contains delete
contains-delete_ne [] pc name h = refl
contains-delete_ne (q ∷ p) pc name h =
    ground (arith, contains-delete_ne p pc name h, eq_iff q.name pc.name, eq_iff q.name name)

pub contains-delete_self :
    (p : PipelineConfigs) (pc : PipelineConfig)
    → IsUnique p
    → contains (delete p pc) pc.name ≡ false
unfolding contains delete
contains-delete_self [] pc u = refl
contains-delete_self (q ∷ p) pc u =
    ground (arith, contains-delete_self p pc u.1, eq_iff q.name pc.name)

pub add-IsUnique :
    (p : PipelineConfigs) (pc : PipelineConfig)
    → IsUnique p
    → contains p pc.name ≡ false
    → IsUnique (add p pc)
unfolding contains add
add-IsUnique [] pc u h = (refl, tt)
add-IsUnique (q ∷ p) pc u h = ground (
  arith,
  add-IsUnique p pc u.1,
  contains-add p pc q.name,
  eq_iff q.name pc.name,
  eq_iff pc.name q.name,
)

pub delete-IsUnique :
    (p : PipelineConfigs) (pc : PipelineConfig) → IsUnique p → IsUnique (delete p pc)
unfolding contains delete
delete-IsUnique [] pc u = tt
delete-IsUnique (q ∷ p) pc u = ground (
  arith,
  delete-IsUnique p pc u.1,
  contains-delete_ne p pc q.name,
  eq_iff q.name pc.name,
  eq_iff pc.name q.name,
)

-- Deleting what was just added gives the old list back.
pub delete-add :
    (p : PipelineConfigs) (pc pd : PipelineConfig)
    → pc.name ≡ pd.name
    → contains p pc.name ≡ false
    → delete (add p pc) pd ≡ p
unfolding contains add delete
delete-add [] pc pd e h = ground (arith, eq_iff pc.name pd.name)
delete-add (q ∷ p) pc pd e h =
    ground (arith, delete-add p pc pd e, eq_iff q.name pd.name, eq_iff q.name pc.name)

pub length-delete :
    (p : PipelineConfigs) (pc : PipelineConfig)
    → contains p pc.name ≡ true
    → length (delete p pc) + 1 ≡ length p
unfolding contains delete
length-delete [] pc h = ground arith
length-delete (q ∷ p) pc h = ground (arith, length-delete p pc)
