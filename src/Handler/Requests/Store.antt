-- ===== src/Handler/Requests/Store.antt =====
-- What a request for the informer stores publishes (meshsync/handlers.go).
use meshsync.Common.{
  false, String, ◌≡◌, refl, ap, sym, ◌∙◌, Option, none, some, List, [], ◌∷◌, ◌++◌, map, All, arith,
  ◌==◌,
}
use mathlib.Core.List.{append-nil, append_assoc}
use meshsync.Errors.{Error, Result, ok}
use meshsync.Model.{KubernetesResource}
use meshsync.Common.Dict.{Dict}
use meshsync.Model.Convert.{Codec, ◌>>=◌}
use meshsync.Pipeline.Handlers.{Value}
use meshsync.Handler.Stores.{stored_objects, parse_object, parse_objects, list_store_objects}
use meshsync.Handler.Slices.{split_into_multiple_slices}
use meshsync.Handler.Slices.Batches.{flatten, Fits, slices_partition}
use meshsync.Handler.Requests.{
  Entities, Request, Message, Published, batch, State, publish_all, handle_informer_store_request,
  handle_request, handle_if_any,
}
use meshsync.Handler.Sessions.{ExecRequest, LogRequest}

-- A broker that keeps what it is given, with the subject.
abbrev pub Log : Type 0
Log = List (String × Published)

unfoldable pub log_publish : String → Published → Log → Option Error × Log
log_publish subject message log = (none, log ++ (subject, message) ∷ [])

abbrev pub messages : String → List (List KubernetesResource) → Log
messages reply = map (λ objects. (reply, batch objects))

-- The message with a request.
abbrev pub asking : {O : Type 0} → Request O → Message O
asking r = record { request = some r }

module _ {Service O : Type 0} (c : Codec Service) (env cluster_id : String) (entities : Entities)
    (decode_exec : O → Result (List ExecRequest)) (decode_logs : O → Result (List LogRequest))
    (decode_reply : O → Result String) (server_version : String) where
  -- The handler with the listing of its stores.
  abbrev pub handle : Dict (List Value) → Option (Message O) → State Log → Option (State Log)
  handle stores =
      handle_request entities decode_exec decode_logs decode_reply server_version log_publish
        (list_store_objects c env cluster_id stores)

  -- Each object of the stores is converted to the resource at its place.
  pub data Converted : List Value → List KubernetesResource → Type 0 where
    no_object : Converted [] []
    object :
        (value : Value) (r : KubernetesResource) (values : List Value)
        (rs : List KubernetesResource)
        → parse_object c env cluster_id value ≡ some r
        → Converted values rs
        → Converted (value ∷ values) (r ∷ rs)

  list_found :
      (values : List Value) (rs : List KubernetesResource)
      → Converted values rs
      → parse_objects c env cluster_id values ≡ some rs
  unfolding parse_objects
  list_found _ _ no_object = refl
  list_found _ _ (object value r values rs e h) = rw (e, list_found values rs h) refl

  module _ (listing : Option (List KubernetesResource)) where
    published :
        (reply : String) (batches : List (List KubernetesResource)) (log : Log)
        → publish_all entities decode_exec decode_logs decode_reply server_version log_publish
            listing reply batches log
          ≡ log ++ messages reply batches
    unfolding publish_all log_publish
    published reply [] log = sym (append-nil log)
    published reply (objects ∷ batches) log =
        published reply batches (log ++ (reply, batch objects) ∷ [])
        ∙ append_assoc log ((reply, batch objects) ∷ []) (messages reply batches)

    stores_published :
        (payload : O) (reply : String) (objects : List KubernetesResource) (log : Log)
        → decode_reply payload ≡ ok reply
        → listing ≡ some objects
        → handle_informer_store_request entities decode_exec decode_logs decode_reply server_version
            log_publish listing payload log
          ≡ some (log ++ messages reply (split_into_multiple_slices objects 5))
    unfolding handle_informer_store_request
    stores_published payload reply objects log decoded listed =
        rw (decoded, handle_informer_store_request)
          (rw listed (ap some (published reply (split_into_multiple_slices objects 5) log)))

    store_case :
        (payload : O) (h : State Log)
        → ("informer-store" == entities.log_request) ≡ false
        → handle_request entities decode_exec decode_logs decode_reply server_version log_publish
            listing
            (some (asking (record { entity = "informer-store"; payload = payload })))
            h
          ≡ (handle_informer_store_request entities decode_exec decode_logs decode_reply
                server_version log_publish listing payload h.broker
              >>= (λ b. some (record h { broker = b })))
    unfolding handle_request handle_if_any
    store_case payload h other = ground (arith, other)

  -- A request for the informer stores whose payload decodes, if meshkit's log entity has another
  -- name and every object of the stores is converted, publishes on the reply subject, in order,
  -- messages of one to five resources that together are the converted objects of the stores, and
  -- changes nothing else.
  pub store_request_published :
      (stores : Dict (List Value)) (objects : List KubernetesResource) (payload : O)
      (reply : String) (h : State Log)
      → ("informer-store" == entities.log_request) ≡ false
      → decode_reply payload ≡ ok reply
      → Converted (stored_objects stores) objects
      → (batches : List (List KubernetesResource)) × (handle stores
            (some (asking (record { entity = "informer-store"; payload = payload })))
            h
          ≡ some (record h { broker = h.broker ++ messages reply batches }))
        × (flatten batches ≡ objects)
        × All (Fits 5) batches
  unfolding list_store_objects
  store_request_published stores objects payload reply h other decoded converted =
      let listing = parse_objects c env cluster_id (stored_objects stores) in
      let (whole, fit) = slices_partition objects 5 (omega arith) in
      (
        split_into_multiple_slices objects 5,
        store_case listing payload h other
            ∙ ap (λ b. b >>= (λ b. some (record h { broker = b })))
                (stores_published listing payload reply objects h.broker decoded
                  (list_found (stored_objects stores) objects converted)),
        whole,
        fit,
      )
