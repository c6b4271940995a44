-- ===== src/Broker.antt =====
-- The event types of the broker, as the sources use them: their wire values are stated in
-- internal/config/default_config.go.
use meshsync.Common.{String}

abbrev pub EventType : Type 0
EventType = String

abbrev pub add : EventType
add = "ADDED"

abbrev pub update : EventType
update = "MODIFIED"

abbrev pub delete : EventType
delete = "DELETED"
