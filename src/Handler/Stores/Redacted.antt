-- ===== src/Handler/Stores/Redacted.antt =====
-- What a listing of the stores (meshsync/handlers.go) shows of Secrets under
-- MESHSYNC_REDACT_SECRETS.
use meshsync.Common.{String, ◌≡◌, refl, ap, true, Option, some, List, [], ◌∷◌, ◌++◌}
use meshsync.Common.Dict.{Dict}
use meshsync.Broker
use meshsync.Model.Secrets.{redact_secrets_enabled}
use meshsync.Model.Convert.{Codec}
use meshsync.Model.Convert.Redaction.{DifferInValues, parse_list_hides_values}
use meshsync.Pipeline.Handlers.{Unstructured, Value, unstructured}
use meshsync.Handler.Stores.{stored_objects, parse_object, parse_objects, list_store_objects}
use meshsync.Errors.{Error, Result}
use meshsync.Handler.Sessions.{ExecRequest, LogRequest}
use meshsync.Handler.Requests.{Entities, Message, Published, State, handle_request}

module _ {Service : Type 0} (c : Codec Service) where
  -- The two objects are the same, or of one Secret but for the values under its keys.
  pub data Alike : Value → Value → Type 0 where
    same : (value : Value) → Alike value value
    secret :
        (u u' : Unstructured)
        → DifferInValues c u.bytes u'.bytes
        → Alike (unstructured (some u)) (unstructured (some u'))

  pub data AlikeObjects : List Value → List Value → Type 0 where
    no_object : AlikeObjects [] []
    object :
        (value value' : Value) (values values' : List Value)
        → Alike value value'
        → AlikeObjects values values'
        → AlikeObjects (value ∷ values) (value' ∷ values')

  -- The same stores, with alike objects in the same places.
  pub data AlikeStores : Dict (List Value) → Dict (List Value) → Type 0 where
    no_store : AlikeStores [] []
    store :
        (name : String) (objects objects' : List Value) (stores stores' : Dict (List Value))
        → AlikeObjects objects objects'
        → AlikeStores stores stores'
        → AlikeStores ((name, objects) ∷ stores) ((name, objects') ∷ stores')

  append_alike :
      (xs xs' ys ys' : List Value)
      → AlikeObjects xs xs'
      → AlikeObjects ys ys'
      → AlikeObjects (xs ++ ys) (xs' ++ ys')
  append_alike _ _ ys ys' no_object k = k
  append_alike _ _ ys ys' (object v v' vs vs' a h) k =
      object v v' (vs ++ ys) (vs' ++ ys') a (append_alike vs vs' ys ys' h k)

  stored_alike :
      (s s' : Dict (List Value))
      → AlikeStores s s'
      → AlikeObjects (stored_objects s) (stored_objects s')
  unfolding stored_objects
  stored_alike _ _ no_store = no_object
  stored_alike _ _ (store name os os' ss ss' o s) =
      append_alike os os' (stored_objects ss) (stored_objects ss') o (stored_alike ss ss' s)

  module _ (marshal_total : (kv : Dict String) → (out : String) × (c.marshal_texts kv ≡ some out))
      (env cluster_id : String) (on : redact_secrets_enabled env ≡ true) where
    parse_object-same :
        (v v' : Value)
        → Alike v v'
        → parse_object c env cluster_id v ≡ parse_object c env cluster_id v'
    unfolding parse_object
    parse_object-same _ _ (same v) = refl
    parse_object-same _ _ (secret u u' d) =
        parse_list_hides_values c marshal_total env u.bytes u'.bytes Broker.add cluster_id on d

    parse_objects-same :
        (vs vs' : List Value)
        → AlikeObjects vs vs'
        → parse_objects c env cluster_id vs ≡ parse_objects c env cluster_id vs'
    unfolding parse_objects
    parse_objects-same _ _ no_object = refl
    parse_objects-same _ _ (object v v' vs vs' a h) =
        rw (parse_object-same v v' a, parse_objects-same vs vs' h) refl

    listing_hides_values :
        (stores stores' : Dict (List Value))
        → AlikeStores stores stores'
        → list_store_objects c env cluster_id stores ≡ list_store_objects c env cluster_id stores'
    unfolding list_store_objects
    listing_hides_values s s' h =
        parse_objects-same (stored_objects s) (stored_objects s') (stored_alike s s' h)

    -- With redaction on, and if maps of texts always encode: whatever a request makes the handler
    -- publish or change, a panic included, it is the same when the values in the Secrets of the
    -- stores are others under the same keys, and all else that is read of them is the same.
    pub requests_hide_values :
        {O B : Type 0} (entities : Entities) (decode_exec : O → Result (List ExecRequest))
        (decode_logs : O → Result (List LogRequest)) (decode_reply : O → Result String)
        (server_version : String) (publish : String → Published → B → Option Error × B)
        (stores stores' : Dict (List Value)) (r : Option (Message O)) (h : State B)
        → AlikeStores stores stores'
        → handle_request entities decode_exec decode_logs decode_reply server_version publish
            (list_store_objects c env cluster_id stores)
            r
            h
          ≡ handle_request entities decode_exec decode_logs decode_reply server_version publish
              (list_store_objects c env cluster_id stores')
              r
              h
    requests_hide_values entities decode_exec decode_logs decode_reply server_version publish stores
          stores' r h alike =
        ap
          (λ listing.
            handle_request entities decode_exec decode_logs decode_reply server_version publish
              listing r h)
          (listing_hides_values stores stores' alike)
