-- ===== src/Handler/CrdWatch/Membership.antt =====
-- Which pipelines the configuration has after a CRD event (updatePipelineConfig of
-- meshsync/handlers.go).
use meshsync.Common.{
  String, ◌≡◌, ◌≢◌, ◌↔◌, refl, Bool, true, false, ◌&&◌, Option, none, some, arith, ◌==◌, eq_iff,
  if◌then◌else◌,
}
use meshsync.Common.Dict.{has}
use meshsync.Config.{PipelineConfigs}
use meshsync.Config.Pipelines.{
  contains, IsUnique, contains-add, contains-delete_ne, contains-delete_self, add-IsUnique,
  delete-IsUnique, delete-add,
}
use meshsync.Handler.CrdWatch.{added, deleted, registered, named, next_pipelines}

-- The pipelines that are stored after the event.
abbrev pub kept_or_next : PipelineConfigs → Option PipelineConfigs → PipelineConfigs
kept_or_next pipelines none = pipelines
kept_or_next pipelines (some next) = next

abbrev pub pipelines_after : String → String → PipelineConfigs → PipelineConfigs
pipelines_after event_type name pipelines =
    kept_or_next pipelines (next_pipelines event_type name pipelines)

-- An ADDED event makes its name watched, a DELETED event makes it unwatched, and no event touches
-- any other name.
abbrev pub watched_after : String → String → PipelineConfigs → String → Bool
watched_after event_type name pipelines other =
    if name == other && event_type == added
    then true
    else (if name == other && event_type == deleted then false else contains pipelines other)

contains-after :
    (event_type name other : String) (pipelines : PipelineConfigs)
    → IsUnique pipelines
    → contains (pipelines_after event_type name pipelines) other
      ≡ watched_after event_type name pipelines other
unfolding next_pipelines registered
contains-after event_type name other pipelines u = ground (
  arith,
  contains-add pipelines (registered name) other,
  contains-delete_self pipelines (named name) u,
  contains-delete_ne pipelines (named name) other,
  eq_iff name other,
)

after-IsUnique :
    (event_type name : String) (pipelines : PipelineConfigs)
    → IsUnique pipelines
    → IsUnique (pipelines_after event_type name pipelines)
unfolding next_pipelines registered
after-IsUnique event_type name pipelines u =
    ground
      (arith, add-IsUnique pipelines (registered name) u, delete-IsUnique pipelines (named name) u)

changed-after :
    (event_type name : String) (pipelines : PipelineConfigs)
    → IsUnique pipelines
    → (has (next_pipelines event_type name pipelines) ≡ true)
      ↔ (contains (pipelines_after event_type name pipelines) name ≢ contains pipelines name)
unfolding next_pipelines registered
changed-after event_type name pipelines u = ground (
  arith,
  contains-add pipelines (registered name) name,
  contains-delete_self pipelines (named name) u,
  eq_iff name name,
)

-- If the names of the pipelines are distinct, they are after the event, the names watched after it
-- are those watched before but for the event's own, which an ADDED event adds and a DELETED event
-- removes, and the event counts as a change exactly if it alters whether its name is watched.
pub crd_event_membership :
    (event_type name other : String) (pipelines : PipelineConfigs)
    → IsUnique pipelines
    → (contains (pipelines_after event_type name pipelines) other
        ≡ watched_after event_type name pipelines other)
      × (IsUnique (pipelines_after event_type name pipelines))
      × ((has (next_pipelines event_type name pipelines) ≡ true)
          ↔ (contains (pipelines_after event_type name pipelines) name ≢ contains pipelines name))
crd_event_membership event_type name other pipelines u = (
  contains-after event_type name other pipelines u,
  after-IsUnique event_type name pipelines u,
  changed-after event_type name pipelines u,
)

-- If a name is not watched, its ADDED event followed by its DELETED event gives the pipelines
-- back, in their order.
pub added_then_deleted :
    (name : String) (pipelines : PipelineConfigs)
    → contains pipelines name ≡ false
    → pipelines_after deleted name (pipelines_after added name pipelines) ≡ pipelines
unfolding next_pipelines registered
added_then_deleted name pipelines h = ground (
  arith,
  contains-add pipelines (registered name) name,
  delete-add pipelines (registered name) (named name) refl h,
  eq_iff name name,
)
