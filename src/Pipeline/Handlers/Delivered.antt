-- ===== src/Pipeline/Handlers/Delivered.antt =====
-- What an informer delivers reaches any writer (internal/pipeline/handlers.go) just as it reaches one
-- that only keeps what it is given.
use meshsync.Common.{
  String, ◌≡◌, refl, sym, ap, ◌∙◌, Bool, true, false, Bool-cases, inl, inr, Option, none, some,
  List, [], ◌∷◌, ◌++◌, ◌==◌, contains,
}
use meshsync.Broker
use meshsync.Broker.{EventType}
use meshsync.Model.{KubernetesResource}
use meshsync.Model.Convert.{Codec, ◌>>=◌, parse_list}
use meshsync.Output.{Write, Call, call}
use meshsync.Output.Streaming.Once.{run}
use meshsync.Pipeline.Handlers.{
  Unstructured, Value, unstructured, deleted_final_state_unknown, other, RegisterInformer,
  check_must_skip, write_unless, publish_parsed, publish_item, after, publish_and_log, add_func,
  update_func, update_objects, delete_func, unwrap, delete_unwrapped,
}
use meshsync.Pipeline.Handlers.Published.{log_write}
use meshsync.Pipeline.Handlers.Events.{Notification, added, updated, deleted, handle, handle_all}

module _ {Service S : Type 0} (c : Codec Service) (env : String) (writer : Write S)
    (ri : RegisterInformer) (start : S) where
  -- What the writer makes of the calls that were kept, from the start; nothing after a panic.
  abbrev pub replayed : Option (List Call) → Option S
  replayed none = none
  replayed (some calls) = some (run writer calls start)

  run-last :
      (calls : List Call) (d : Call) (s : S)
      → run writer (calls ++ d ∷ []) s ≡ (call writer d (run writer calls s)).1
  run-last [] d s = refl
  run-last (b ∷ calls) d s = run-last calls d (call writer b s).1

  parsed-replayed :
      (o : Option KubernetesResource) (skip : Bool) (evtype : EventType) (calls : List Call)
      → after c env writer ri
          (publish_parsed c env writer ri o skip evtype ri.config (run writer calls start))
        ≡ replayed (
            after c env log_write ri
              (publish_parsed c env log_write ri o skip evtype ri.config calls))
  unfolding after publish_parsed write_unless log_write
  parsed-replayed none skip evtype calls = refl
  parsed-replayed (some r) true evtype calls = refl
  parsed-replayed (some r) false evtype calls = ap some (sym (run-last calls _ start))

  logged-replayed :
      (obj : Option Unstructured) (evtype : EventType) (calls : List Call)
      → publish_and_log c env writer ri obj evtype (run writer calls start)
        ≡ replayed (publish_and_log c env log_write ri obj evtype calls)
  unfolding publish_and_log publish_item after
  logged-replayed none evtype calls = refl
  logged-replayed (some obj) evtype calls = elim (Bool-cases (contains ri.config.events evtype)) [
    | inl listed ↦ rw listed (
        parsed-replayed (parse_list c env obj.bytes evtype ri.cluster_id)
          (check_must_skip ri (some obj)) evtype calls)
    | inr unlisted ↦ rw unlisted refl
  ]

  objects-replayed :
      (old obj : Option Unstructured) (calls : List Call)
      → update_objects c env writer ri old obj (run writer calls start)
        ≡ replayed (update_objects c env log_write ri old obj calls)
  unfolding update_objects
  objects-replayed none obj calls = refl
  objects-replayed (some old) none calls = refl
  objects-replayed (some old) (some obj) calls =
      elim (Bool-cases (old.resource_version == obj.resource_version)) [
        | inl same ↦ rw same refl
        | inr new ↦ rw new (logged-replayed (some obj) Broker.update calls)
      ]

  deleted-replayed :
      (v : Value) (calls : List Call)
      → delete_unwrapped c env writer ri v (run writer calls start)
        ≡ replayed (delete_unwrapped c env log_write ri v calls)
  unfolding delete_unwrapped
  deleted-replayed (unstructured obj) calls = logged-replayed obj Broker.delete calls
  deleted-replayed (deleted_final_state_unknown v) calls = refl
  deleted-replayed other calls = refl

  handle-replayed :
      (n : Notification) (calls : List Call)
      → handle c env writer ri n (run writer calls start)
        ≡ replayed (handle c env log_write ri n calls)
  unfolding handle add_func update_func delete_func
  handle-replayed (added (unstructured obj)) calls = logged-replayed obj Broker.add calls
  handle-replayed (added (deleted_final_state_unknown v)) calls = refl
  handle-replayed (added other) calls = refl
  handle-replayed (updated (unstructured old) (unstructured obj)) calls =
      objects-replayed old obj calls
  handle-replayed (updated (unstructured old) (deleted_final_state_unknown v)) calls = refl
  handle-replayed (updated (unstructured old) other) calls = refl
  handle-replayed (updated (deleted_final_state_unknown v) obj) calls = refl
  handle-replayed (updated other obj) calls = refl
  handle-replayed (deleted v) calls = deleted-replayed (unwrap c env writer ri v) calls

  bind-replayed :
      (o : Option (List Call)) (f : List Call → Option (List Call)) (g : S → Option S)
      → ((calls : List Call) → g (run writer calls start) ≡ replayed (f calls))
      → (replayed o >>= g) ≡ replayed (o >>= f)
  bind-replayed none f g h = refl
  bind-replayed (some calls) f g h = h calls

  -- Whatever an informer delivers, a writer is left as the calls that a writer that only keeps
  -- them has got would leave it, one after another: which calls there are, their order, and
  -- whether a handler panics, depends neither on the writer nor on its errors.
  pub handle_all-replayed :
      (ns : List Notification) (calls : List Call)
      → handle_all c env writer ri ns (run writer calls start)
        ≡ replayed (handle_all c env log_write ri ns calls)
  unfolding handle_all
  handle_all-replayed [] calls = refl
  handle_all-replayed (n ∷ ns) calls =
      ap (λ o. o >>= handle_all c env writer ri ns) (handle-replayed n calls)
      ∙ bind-replayed (handle c env log_write ri n calls) (handle_all c env log_write ri ns)
          (handle_all c env writer ri ns) (λ later. handle_all-replayed ns later)
