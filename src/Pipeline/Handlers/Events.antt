-- ===== src/Pipeline/Handlers/Events.antt =====
-- The event handlers of internal/pipeline/handlers.go over what an informer delivers.
use meshsync.Common.{
  String, ◌≡◌, ◌≢◌, refl, inl, inr, Bool-cases, Option, none, some, List, [], ◌∷◌, arith, ◌==◌,
  eq_iff, All,
}
use meshsync.Errors.{Error}
use meshsync.Broker
use meshsync.Broker.{EventType}
use meshsync.Model.Convert.{Codec, ◌>>=◌}
use meshsync.Output.{Write, Call}
use meshsync.Pipeline.Handlers.{
  Unstructured, Value, unstructured, deleted_final_state_unknown, other, RegisterInformer,
  publish_item, after, publish_and_log, add_func, update_func, update_objects, delete_func,
  delete_unwrapped,
}
use meshsync.Pipeline.Handlers.Published.{
  log_write, IsAllowed, Decodes, Logged, publish_item-Logged,
}

-- What an informer delivers.
pub data Notification : Type 0 where
  added : Value → Notification
  updated : Value → Value → Notification
  deleted : Value → Notification

module _ {Service S : Type 0} (c : Codec Service) (env : String) (output_writer : Write S)
    (ri : RegisterInformer) where
  -- cache.ResourceEventHandlerFuncs
  unfoldable pub handle : Notification → S → Option S
  handle (added obj) s = add_func c env output_writer ri obj s
  handle (updated old obj) s = update_func c env output_writer ri old obj s
  handle (deleted obj) s = delete_func c env output_writer ri obj s

  -- Notifications one after another, up to a panic.
  unfoldable pub handle_all : List Notification → S → Option S
  handle_all [] s = some s
  handle_all (n ∷ ns) s = handle n s >>= handle_all ns

  -- A DELETE delivered as a tombstone has the effect of the DELETE of the object that it wraps,
  -- and a DELETE of anything that is no object, tombstone or not, changes nothing.
  pub delete_func-tombstone :
      (obj : Option Unstructured) (s : S)
      → (delete_func c env output_writer ri (deleted_final_state_unknown (unstructured obj)) s
          ≡ delete_func c env output_writer ri (unstructured obj) s)
        × (delete_func c env output_writer ri other s ≡ some s)
        × (delete_func c env output_writer ri (deleted_final_state_unknown other) s ≡ some s)
  unfolding delete_func
  delete_func-tombstone obj s = (refl, refl, refl)

  -- An UPDATE of an object is published exactly if the resource version differs: if it is the
  -- same, nothing happens; if it is another one, the new object is published as a MODIFIED event.
  pub update_func-version :
      (old obj : Unstructured) (s : S)
      → (old.resource_version ≡ obj.resource_version
          → update_func c env output_writer ri (unstructured (some old)) (unstructured (some obj)) s
            ≡ some s)
        × (old.resource_version ≢ obj.resource_version
            → update_func c env output_writer ri
                (unstructured (some old))
                (unstructured (some obj))
                s
              ≡ after c env output_writer ri
                  (publish_item c env output_writer ri (some obj) Broker.update ri.config s))
  unfolding update_func
  update_func-version old obj s = (
    (λ e. ground (arith, eq_iff old.resource_version obj.resource_version)),
    (λ d. ground (arith, eq_iff old.resource_version obj.resource_version)),
  )

module _ {Service : Type 0} (c : Codec Service) (env : String) (ri : RegisterInformer) where
  abbrev pub ValueDecodes : Value → Type 0
  ValueDecodes (unstructured obj) = Decodes c env ri obj
  ValueDecodes (deleted_final_state_unknown v) = ValueDecodes v
  ValueDecodes other = Unit {0}

  abbrev pub NotificationDecodes : Notification → Type 0
  NotificationDecodes (added obj) = ValueDecodes obj
  NotificationDecodes (updated old obj) = ValueDecodes obj
  NotificationDecodes (deleted obj) = ValueDecodes obj

  abbrev pub AllAllowed : Option (List Call) → Type 0
  AllAllowed none = Unit {0}
  AllAllowed (some calls) = All (IsAllowed c env ri) calls

  after-AllAllowed :
      (r : Option (Option Error × List Call))
      → Logged c env ri r
      → AllAllowed (after c env log_write ri r)
  unfolding after
  after-AllAllowed none h = tt
  after-AllAllowed (some (e, calls)) h = h

  publish_and_log-AllAllowed :
      (obj : Option Unstructured) (evtype : EventType) (calls : List Call)
      → Decodes c env ri obj
      → All (IsAllowed c env ri) calls
      → AllAllowed (publish_and_log c env log_write ri obj evtype calls)
  unfolding publish_and_log
  publish_and_log-AllAllowed none evtype calls d h = tt
  publish_and_log-AllAllowed (some obj) evtype calls d h =
      after-AllAllowed _ (publish_item-Logged c env ri (some obj) evtype calls d h)

  update_objects-AllAllowed :
      (old obj : Option Unstructured) (calls : List Call)
      → Decodes c env ri obj
      → All (IsAllowed c env ri) calls
      → AllAllowed (update_objects c env log_write ri old obj calls)
  unfolding update_objects
  update_objects-AllAllowed none obj calls d h = tt
  update_objects-AllAllowed (some old) none calls d h = tt
  update_objects-AllAllowed (some old) (some obj) calls d h =
      elim (Bool-cases (old.resource_version == obj.resource_version)) [
        | inl same ↦ rw same h
        | inr new ↦ rw new (publish_and_log-AllAllowed (some obj) Broker.update calls d h)
      ]

  delete_unwrapped-AllAllowed :
      (v : Value) (calls : List Call)
      → ValueDecodes v
      → All (IsAllowed c env ri) calls
      → AllAllowed (delete_unwrapped c env log_write ri v calls)
  unfolding delete_unwrapped
  delete_unwrapped-AllAllowed (unstructured obj) calls d h =
      publish_and_log-AllAllowed obj Broker.delete calls d h
  delete_unwrapped-AllAllowed (deleted_final_state_unknown v) calls d h = h
  delete_unwrapped-AllAllowed other calls d h = h

  handle-AllAllowed :
      (n : Notification) (calls : List Call)
      → NotificationDecodes n
      → All (IsAllowed c env ri) calls
      → AllAllowed (handle c env log_write ri n calls)
  unfolding handle add_func update_func delete_func
  handle-AllAllowed (added (unstructured obj)) calls d h =
      publish_and_log-AllAllowed obj Broker.add calls d h
  handle-AllAllowed (added (deleted_final_state_unknown v)) calls d h = tt
  handle-AllAllowed (added other) calls d h = tt
  handle-AllAllowed (updated (unstructured old) (unstructured obj)) calls d h =
      update_objects-AllAllowed old obj calls d h
  handle-AllAllowed (updated (unstructured old) (deleted_final_state_unknown v)) calls d h = tt
  handle-AllAllowed (updated (unstructured old) other) calls d h = tt
  handle-AllAllowed (updated (deleted_final_state_unknown v) obj) calls d h = tt
  handle-AllAllowed (updated other obj) calls d h = tt
  handle-AllAllowed (deleted (unstructured obj)) calls d h =
      delete_unwrapped-AllAllowed (unstructured obj) calls d h
  handle-AllAllowed (deleted (deleted_final_state_unknown v)) calls d h =
      delete_unwrapped-AllAllowed v calls d h
  handle-AllAllowed (deleted other) calls d h = delete_unwrapped-AllAllowed other calls d h

  bind-AllAllowed :
      (o : Option (List Call)) (f : List Call → Option (List Call))
      → AllAllowed o
      → ((calls : List Call) → All (IsAllowed c env ri) calls → AllAllowed (f calls))
      → AllAllowed (o >>= f)
  bind-AllAllowed none f h k = tt
  bind-AllAllowed (some calls) f h k = k calls h

  -- Whatever an informer delivers, everything that has been published is allowed: its event is
  -- listed for the pipeline, its namespace passes the filter, it carries the cluster's id and it
  -- goes out under the pipeline's configuration. Objects must decode to their own namespace.
  pub handle_all-AllAllowed :
      (ns : List Notification) (calls : List Call)
      → All NotificationDecodes ns
      → All (IsAllowed c env ri) calls
      → AllAllowed (handle_all c env log_write ri ns calls)
  unfolding handle_all
  handle_all-AllAllowed [] calls d h = h
  handle_all-AllAllowed (n ∷ ns) calls d h =
      bind-AllAllowed (handle c env log_write ri n calls) (handle_all c env log_write ri ns)
        (handle-AllAllowed n calls d.0 h) (λ calls' k. handle_all-AllAllowed ns calls' d.1 k)
