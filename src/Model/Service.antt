-- ===== src/Model/Service.antt =====
-- pkg/model/process.go and pkg/model/preprocessor.go: the metadata that a Service gets. Decoding
-- of the Service, GetEndpoint of meshkit (`none` where it fails) and url.ParseRequestURI are
-- arguments.
use meshsync.Common.{
  ◌||◌, ◌≤◌, String, ◌≡◌, refl, Bool, true, false, List, [], ◌∷◌, ◌++◌, Option, none, some, arith,
  ◌==◌, if◌then◌else◌, length, All, ◌⊎◌, inl, inr, All-append, All-mono, length-append,
}
use meshsync.Common.Int.{ℤ, eq_ℕ}
use meshsync.Common.Dict.{Dict, has}
use meshsync.Common.Text.{to_lower, contains_text, concat, decimal_int}
use meshsync.Errors.{Error, Result, ok, err, ◌>>=◌}
use meshsync.Broker
use meshsync.Broker.{EventType}
use meshsync.Model.{Value, boolean, text, array, object, Items, Fields, field, KubernetesResource}

pub record HostPort : Type 0 where
  pub address : String
  pub port : ℤ

pub record Endpoint : Type 0 where
  pub internal : Option HostPort
  pub external : Option HostPort

-- The switch of GetProcessorInstance: there is one processor, K8SService.
unfoldable pub has_processor : String → Bool
has_processor kind = kind == "Service"

unfoldable pub protocol : ℤ → String
protocol port = if eq_ℕ port 443 then "https" else "http"

unfoldable pub service_url : HostPort → String
unfolding protocol
service_url h = concat (protocol h.port ∷ "://" ∷ h.address ∷ ":" ∷ decimal_int h.port ∷ [])

items : List String → Items
items [] = Items.nil
items (url ∷ urls) = Items.cons (text url) (items urls)

abbrev pub capabilities : List String → Dict Value
unfolding items
capabilities urls =
    (
      "capabilities",
      object (field "connection" (boolean true) (field "urls" (array (items urls)) Fields.end)),
    )
    ∷ []

module _ (is_request_uri : String → Bool) where
  -- validateURL: `none` where it returns an error.
  unfoldable pub validate_url : HostPort → Option String
  validate_url h =
      if contains_text (to_lower h.address) "none"
      then none
      else if is_request_uri (service_url h)
      then some (service_url h)
      else none

  append_url : Option String → List String
  append_url none = []
  append_url (some url) = url ∷ []

  url_of : Option HostPort → List String
  unfolding append_url
  url_of none = []
  url_of (some h) = append_url (validate_url h)

  unfoldable pub urls_of : Option Endpoint → List String
  unfolding url_of
  urls_of none = []
  urls_of (some endpoint) = url_of endpoint.external ++ url_of endpoint.internal

  module _ {Service : Type 0} (unmarshal_service : String → Result Service)
      (get_endpoint : Service → Result (Option Endpoint)) where
    finish_process :
        KubernetesResource → Result (Option Endpoint) → KubernetesResource × Option Error
    unfolding urls_of
    finish_process resource (err e) = (resource, some e)
    finish_process resource (ok endpoint) =
        (record resource { component_metadata = capabilities (urls_of endpoint) }, none)

    unfoldable pub process :
        String → EventType → KubernetesResource → KubernetesResource × Option Error
    unfolding finish_process
    process bytes evtype resource =
        if evtype == Broker.delete
        then (resource, none)
        else finish_process resource (unmarshal_service bytes >>= get_endpoint)

    finish_changes_metadata :
        (resource : KubernetesResource) (r : Result (Option Endpoint))
        → let (after, error) = finish_process resource r in
          after ≡ record resource {
            component_metadata =
                if has error then resource.component_metadata else after.component_metadata;
          }
    unfolding finish_process
    finish_changes_metadata resource (ok e) = refl
    finish_changes_metadata resource (err e) = refl

    -- Whatever is decoded, nothing but the component's metadata changes, and on a DELETE event or
    -- an error not even that.
    pub process_changes_metadata :
        (bytes : String) (evtype : EventType) (resource : KubernetesResource)
        → let (after, error) = process bytes evtype resource in
          after ≡ record resource {
            component_metadata =
                if evtype == Broker.delete || has error
                then resource.component_metadata
                else after.component_metadata;
          }
    unfolding process
    process_changes_metadata bytes evtype resource = on_event (evtype == Broker.delete)
      where
        on_event :
            (deleted : Bool)
            → let r =
                if deleted
                then (resource, none)
                else finish_process resource (unmarshal_service bytes >>= get_endpoint) in
              r.0 ≡ record resource {
                component_metadata =
                    if deleted || has r.1
                    then resource.component_metadata
                    else r.0.component_metadata;
              }
        on_event true = refl
        on_event false = finish_changes_metadata resource (unmarshal_service bytes >>= get_endpoint)

  -- A request URI for an address in which "none" does not stand.
  abbrev pub IsUrlOf : HostPort → String → Type 0
  IsUrlOf h url =
      (url ≡ service_url h)
      × (is_request_uri url ≡ true)
      × (contains_text (to_lower h.address) "none" ≡ false)

  validate_url-IsUrlOf : (h : HostPort) (url : String) → validate_url h ≡ some url → IsUrlOf h url
  unfolding validate_url
  validate_url-IsUrlOf h url e = ground arith

  abbrev pub IsUrlOfSome : Option HostPort → String → Type 0
  IsUrlOfSome none url = ⊥
  IsUrlOfSome (some h) url = IsUrlOf h url

  append_url-IsUrlOf :
      (h : HostPort) (o : Option String) → validate_url h ≡ o → All (IsUrlOf h) (append_url o)
  unfolding append_url
  append_url-IsUrlOf h none e = tt
  append_url-IsUrlOf h (some url) e = (validate_url-IsUrlOf h url e, tt)

  url_of_sound : (o : Option HostPort) → All (IsUrlOfSome o) (url_of o)
  unfolding url_of
  url_of_sound none = tt
  url_of_sound (some h) = append_url-IsUrlOf h (validate_url h) refl

  length-url_of : (o : Option HostPort) → length (url_of o) ≤ 1
  unfolding url_of
  length-url_of o = ground arith

  -- The URLs of an endpoint, at most two: each is the request URI of one of its addresses, in
  -- which "none" does not stand in any case.
  pub urls_of_endpoint :
      (endpoint : Endpoint)
      → (length (urls_of (some endpoint)) ≤ 2)
        × All
            (λ url. IsUrlOfSome endpoint.external url ⊎ IsUrlOfSome endpoint.internal url)
            (urls_of (some endpoint))
  unfolding urls_of
  urls_of_endpoint endpoint =
      let external = url_of endpoint.external in
      let internal = url_of endpoint.internal in
      (
        omega (
          arith,
          length-append external internal,
          length-url_of endpoint.external,
          length-url_of endpoint.internal,
        ),
        All-append _ external internal
            (All-mono (λ url h. inl h) external (url_of_sound endpoint.external))
            (All-mono (λ url h. inr h) internal (url_of_sound endpoint.internal)),
      )
