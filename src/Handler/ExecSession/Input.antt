-- ===== src/Handler/ExecSession/Input.antt =====
-- What an exec session (meshsync/exec.go) writes to its terminal.
use mathlib.Core.List.{append-nil, append_assoc}
use meshsync.Common.{
  String, ◌≡◌, ◌≢◌, ◌⊎◌, inl, inr, sym, ap, ◌∙◌, refl, true, false, Option, none, some, List, [],
  ◌∷◌, ◌++◌, map, arith, eq_iff, eq_refl,
}
use meshsync.Common.Text.{concat}
use meshsync.Common.Dict.{lookup, has}
use meshsync.Handler.ExecSession.{Session, Message, received, typed, turn, on_message, step, steps}

-- What a client may send: some input, or something else, nil included.
pub data Sent : Type 0 where
  input : String → Sent
  other : Option Message → Sent

-- A message that is nil, of another type, or without a text.
abbrev pub IsOther : String → Option Message → Type 0
IsOther exec_input_object none = Unit
IsOther exec_input_object (some m) = (m.object_type ≢ exec_input_object) ⊎ (m.object ≡ none)

abbrev pub OthersAreOther : String → List Sent → Type 0
OthersAreOther exec_input_object [] = Unit
OthersAreOther exec_input_object (input text ∷ sent) = OthersAreOther exec_input_object sent
OthersAreOther exec_input_object (other m ∷ sent) =
    IsOther exec_input_object m × OthersAreOther exec_input_object sent

abbrev pub message_of : String → Sent → Option Message
message_of exec_input_object (input text) =
    some (record { object_type = exec_input_object; object = some text })
message_of exec_input_object (other m) = m

-- Each input with a newline, in order.
abbrev pub lines : List Sent → List String
lines [] = []
lines (input text ∷ sent) = concat (text ∷ "\n" ∷ []) ∷ lines sent
lines (other m ∷ sent) = lines sent

module _ (exec_input_object id : String) where
  received_step :
      (m : Option Message) (s : Session)
      → s.looping ≡ true
      → s.done ≡ false
      → has (lookup s.handler.sessions id) ≡ true
      → step exec_input_object id (received m) s
        ≡ record s { stdin = s.stdin ++ typed exec_input_object m }
  unfolding step on_message turn
  received_step m s looping running known = rw (looping, running, known) refl

  typed_input :
      (text : String)
      → typed exec_input_object (message_of exec_input_object (input text))
        ≡ concat (text ∷ "\n" ∷ []) ∷ []
  unfolding typed
  typed_input text = rw (eq_refl exec_input_object) refl

  typed_other : (m : Option Message) → IsOther exec_input_object m → typed exec_input_object m ≡ []
  unfolding typed
  typed_other none h = refl
  typed_other (some m) (inl foreign) =
      ground (arith, foreign, eq_iff m.object_type exec_input_object)
  typed_other (some m) (inr textless) = ground (arith, textless)

  -- A running session that receives messages goes on, and has got these lines.
  copied :
      (line : List String) (m : Option Message) (sent : List Sent) (s : Session)
      → typed exec_input_object m ≡ line
      → steps exec_input_object id
          (map received (map (message_of exec_input_object) sent))
          (record s { stdin = s.stdin ++ line })
        ≡ record s { stdin = (s.stdin ++ line) ++ lines sent }
      → s.looping ≡ true
      → s.done ≡ false
      → has (lookup s.handler.sessions id) ≡ true
      → steps exec_input_object id
          (received m ∷ map received (map (message_of exec_input_object) sent))
          s
        ≡ record s { stdin = s.stdin ++ (line ++ lines sent) }
  unfolding steps
  copied line m sent s e later looping running known =
      ap (steps exec_input_object id (map received (map (message_of exec_input_object) sent)))
        (received_step m s looping running known ∙ ap (λ t. record s { stdin = s.stdin ++ t }) e)
      ∙ (later ∙ ap (λ t. record s { stdin = t }) (append_assoc s.stdin line (lines sent)))

  -- However many messages a running session receives, of whatever type and content, nil included:
  -- it goes on, and its terminal gets the text of each input, with a newline, in the order of the
  -- messages. A message of another type, without a text, or nil writes nothing.
  pub exec_input_copied :
      (sent : List Sent) (s : Session)
      → OthersAreOther exec_input_object sent
      → s.looping ≡ true
      → s.done ≡ false
      → has (lookup s.handler.sessions id) ≡ true
      → steps exec_input_object id (map received (map (message_of exec_input_object) sent)) s
        ≡ record s { stdin = s.stdin ++ lines sent }
  unfolding steps
  exec_input_copied [] s others looping running known =
      ap (λ t. record s { stdin = t }) (sym (append-nil s.stdin))
  exec_input_copied (input text ∷ sent) s others looping running known =
      let line = concat (text ∷ "\n" ∷ []) ∷ [] in
      copied line (message_of exec_input_object (input text)) sent s (typed_input text)
        (exec_input_copied sent (record s { stdin = s.stdin ++ line }) others looping running known)
        looping running known
  exec_input_copied (other m ∷ sent) s others looping running known =
      copied [] m sent s (typed_other m others.0)
        (exec_input_copied sent (record s { stdin = s.stdin ++ [] }) others.1 looping running known)
        looping running known
