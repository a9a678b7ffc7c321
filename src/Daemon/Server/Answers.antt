-- ===== src/Daemon/Server/Answers.antt =====
-- What the read loop of `src/agent/daemon/server.py` answers.
use hyprland_agent.Prelude.{
  Text, ◌≡◌, Bool, true, ◌||◌, Option, some, List, [], ◌∷◌, ◌++◌, All, is_some, if◌then◌else◌,
}
use hyprland_agent.Schemas.{Params}
use hyprland_agent.Daemon.PubSub.{Topic, topic_config}
use hyprland_agent.Daemon.Server.{Frame, Read, Turn, is_closed, Connection}

abbrev pub IsConfigured : List Topic → Type 0
IsConfigured = All (λ topic. is_some (topic_config topic) ≡ true)

-- No subscription to a topic without a configuration.
abbrev pub IsServed : Turn → Type 0
IsServed (stopped, Read.frame (Frame.subscribe_to topics)) = IsConfigured topics
IsServed _ = Unit

-- The loop ends at this turn: the stop event is set, the connection is closed, or a frame is too
-- large.
abbrev pub ends_loop : Turn → Bool
ends_loop (stopped, Read.frame f) = stopped
ends_loop (stopped, Read.bad why) = stopped || is_closed why
ends_loop (stopped, Read.too_large) = true

abbrev pub answer_to : (Text → Text → Params → Params) → Read → List Frame
answer_to dispatch (Read.frame (Frame.request id method params)) =
    Frame.response id (dispatch id method params) ∷ []
answer_to dispatch _ = []

-- The answers to the requests up to the end of the loop, in their order.
abbrev pub answers_to : (Text → Text → Params → Params) → List Turn → List Frame
answers_to dispatch [] = []
answers_to dispatch (turn ∷ turns) =
    let rest = answers_to dispatch turns in
    if ends_loop turn then [] else answer_to dispatch turn.1 ++ rest

-- A connection that stands, with the same frames on the way out.
abbrev Keeps : Connection → Option Connection → Type 0
Keeps c o = (c' : Connection) × (o ≡ some c') × (c'.outbound ≡ c.outbound)
