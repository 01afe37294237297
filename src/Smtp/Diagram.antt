-- ===== src/Smtp/Diagram.antt =====
-- services/smtp/conn.go: the diagram of the states, and what each round has to keep.
use honeytrap.Base.{ℕ, ◌+◌, ◌*◌, ◌≡◌, ◌<◌, ◌⊎◌, List, [], ◌∷◌, ◌++◌, length, Option, none, some}
use honeytrap.Base.Run.{returns, panics, starves}
use honeytrap.Base.Text.{Text}
use honeytrap.Smtp.{
  Message, Fault, too_many, Conn, State, start_state, hello_state, loop_state, mail_from_state,
  unrecognized_state, error_state,
}
use honeytrap.Smtp.Session.{Next}

-- The diagram of the states; no state is the end of the session.
pub data Move : State → Option State → Type 0 where
  greets : Move start_state (some hello_state)
  welcomes : Move hello_state (some loop_state)
  refuses : {f : Fault} → Move hello_state (some (error_state f))
  goes_on : Move loop_state (some loop_state)
  opens : Move loop_state (some mail_from_state)
  upgrades : Move loop_state (some hello_state)
  wonders : Move loop_state (some unrecognized_state)
  tires : Move loop_state (some (error_state too_many))
  quits : Move loop_state none
  collects : Move mail_from_state (some mail_from_state)
  closes : Move mail_from_state (some loop_state)
  strays : Move mail_from_state (some unrecognized_state)
  spoils : {f : Fault} → Move mail_from_state (some (error_state f))
  hangs_up : Move mail_from_state none
  recovers : Move unrecognized_state (some loop_state)
  stops : {f : Fault} → Move (error_state f) none

pub ruleset moves = (
  greets, welcomes, refuses, goes_on, opens, upgrades, wonders, tires, quits, collects, closes,
  strays, spoils, hangs_up, recovers, stops,
)

-- What is left to read, in the connection and behind further handshakes.
abbrev pub weight : List (Option Text) → ℕ
weight [] = 0
weight (none ∷ hs) = 1 + weight hs
weight (some t ∷ hs) = 1 + length t + weight hs

abbrev pub rank : State → ℕ
rank start_state = 2
rank hello_state = 1
rank unrecognized_state = 1
rank _ = 0

module _ {A H : Type 0} where
  abbrev pub size : Conn A H → ℕ
  size c = length c.input + weight c.handshakes

  -- Each round takes something off this.
  abbrev pub left : Option State → Conn A H → ℕ
  left none c = 0
  left (some s) c = 1 + rank s + 2 * size c

  -- A message is served only on the way back from the state behind MAIL FROM, and one at a time.
  abbrev pub Serves : State → Option State → List (Message A H) → List (Message A H) → Type 0
  Serves s t before after =
      (after ≡ before)
      ⊎ ((s ≡ mail_from_state)
          × (t ≡ some loop_state)
          × (m : Message A H) × (after ≡ before ++ (m ∷ [])))

  abbrev pub After : State → ℕ → List (Message A H) → Next A H → Type 0
  After s m before (returns (t, d)) = Move s t × (left t d < m) × Serves s t before d.served
  After s m before panics = Unit
  After s m before starves = ⊥
