-- ===== src/Model/Convert/Panics.antt =====
-- When ParseList of pkg/model/model_converter.go writes through a nil pointer.
use meshsync.Common.{
  String, ◌≡◌, Bool, true, false, not, ◌&&◌, ◌||◌, Option, none, some, arith, [], ◌∷◌,
}
use meshsync.Broker.{EventType}
use meshsync.Model.Convert.{Codec, parse_list, read_object}

abbrev pub is_nil {ℓ} : {A : Type ℓ} → Option A → Bool
is_nil none = true
is_nil (some a) = false

module _ {Service : Type 0} (c : Codec Service) where
  -- The struct that encoding/json filled lacks a part that ParseList writes to: the metadata, or a
  -- spec or status that the JSON text has (with the value null, or encoding/json would have
  -- allocated it).
  abbrev pub lacks_part : String → Bool
  lacks_part bytes =
      is_nil (c.unmarshal bytes).kubernetes_resource_meta
      || (is_nil (c.unmarshal bytes).spec && not (is_nil (c.get bytes ("spec" ∷ []))))
      || (is_nil (c.unmarshal bytes).status && not (is_nil (c.get bytes ("status" ∷ []))))

  read_object-nil : (bytes : String) → is_nil (read_object c bytes) ≡ lacks_part bytes
  unfolding read_object
  read_object-nil bytes = ground arith

  -- ParseList panics exactly if the decoded struct has no metadata, or has no spec or no status
  -- where the JSON text has that key.
  pub parse_list_panics :
      (env bytes : String) (evtype : EventType) (cluster_id : String)
      → is_nil (parse_list c env bytes evtype cluster_id) ≡ lacks_part bytes
  unfolding parse_list
  parse_list_panics env bytes evtype cluster_id = ground (arith, read_object-nil bytes)
