-- ===== src/Handler/Resync/Waiting.antt =====
-- Which resync signals reach the loop of Run (meshsync/handlers.go).
use meshsync.Common.{
  ℕ, ◌≡◌, refl, ap, sym, ◌∙◌, Bool, true, false, List, [], ◌∷◌, ◌++◌, if◌then◌else◌,
}
use mathlib.Core.List.{append-nil, append_assoc}
use meshsync.Handler.Resync.{
  ReSyncChannel, Event, sent, received, stopped, new_re_sync_channel, take_first, step, steps,
  receive, re_sync_informer, stop,
}

-- The goroutines that send, in order.
abbrev pub senders : List Event → List ℕ
senders [] = []
senders (sent sender ∷ es) = sender ∷ senders es
senders (received ∷ es) = senders es
senders (stopped ∷ es) = senders es

abbrev everyone : ReSyncChannel → List ℕ
everyone ch = ch.served ++ ch.waiting

first_taken :
    (waiting : List ℕ) (ch : ReSyncChannel)
    → ch.waiting ≡ waiting
    → everyone (take_first waiting ch) ≡ everyone ch
unfolding take_first
first_taken [] ch e = refl
first_taken (sender ∷ rest) ch e =
    append_assoc ch.served (sender ∷ []) rest ∙ ap (λ w. ch.served ++ w) (sym e)

receive-everyone : (ch : ReSyncChannel) → everyone (receive ch) ≡ everyone ch
unfolding receive
receive-everyone ch = go ch.running
  where
    go : (b : Bool) → everyone (if b then take_first ch.waiting ch else ch) ≡ everyone ch
    go true = first_taken ch.waiting ch refl
    go false = refl

steps-everyone :
    (es : List Event) (ch : ReSyncChannel) → everyone (steps es ch) ≡ everyone ch ++ senders es
unfolding steps step re_sync_informer stop
steps-everyone [] ch = sym (append-nil (everyone ch))
steps-everyone (sent sender ∷ es) ch =
    steps-everyone es _
    ∙ (ap (λ l. l ++ senders es) (sym (append_assoc ch.served ch.waiting (sender ∷ [])))
        ∙ append_assoc (everyone ch) (sender ∷ []) (senders es))
steps-everyone (received ∷ es) ch =
    steps-everyone es _ ∙ ap (λ l. l ++ senders es) (receive-everyone ch)
steps-everyone (stopped ∷ es) ch = steps-everyone es _

-- A channel that nobody receives from.
abbrev abandoned : ReSyncChannel → List ℕ → ReSyncChannel
abandoned ch waiting = record { running = false; waiting = waiting; served = ch.served }

steps-abandoned :
    (es : List Event) (ch : ReSyncChannel) (waiting : List ℕ)
    → steps es (abandoned ch waiting) ≡ abandoned ch (waiting ++ senders es)
unfolding steps step re_sync_informer receive stop
steps-abandoned [] ch waiting = ap (abandoned ch) (sym (append-nil waiting))
steps-abandoned (sent sender ∷ es) ch waiting =
    steps-abandoned es ch (waiting ++ sender ∷ [])
    ∙ ap (abandoned ch) (append_assoc waiting (sender ∷ []) (senders es))
steps-abandoned (received ∷ es) ch waiting = steps-abandoned es ch waiting
steps-abandoned (stopped ∷ es) ch waiting = steps-abandoned es ch waiting

-- Whatever happens, no resync signal is lost, doubled or overtaken: the goroutines served and then
-- those that wait are those that have sent, in order. Once the loop of Run has stopped, whatever
-- happens later, no goroutine is served any more: those that waited, and all that send later, wait
-- for ever.
pub resync_senders_wait :
    (es later : List Event)
    → let before = steps es new_re_sync_channel in
      let after = steps later (step stopped before) in
      (before.served ++ before.waiting ≡ senders es)
      × (after.served ≡ before.served)
      × (after.waiting ≡ before.waiting ++ senders later)
unfolding step stop new_re_sync_channel
resync_senders_wait es later =
    let before = steps es new_re_sync_channel in
    let stuck = steps-abandoned later before before.waiting in
    (
      steps-everyone es new_re_sync_channel,
      ap (λ (ch : ReSyncChannel). ch.served) stuck,
      ap (λ (ch : ReSyncChannel). ch.waiting) stuck,
    )
