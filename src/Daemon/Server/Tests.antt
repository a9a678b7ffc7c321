-- ===== src/Daemon/Server/Tests.antt =====
-- Runs of the definitions for the server.
use hyprland_agent.Prelude.{Text, codes, false, ◌≡◌, refl, List, [], ◌∷◌}
use hyprland_agent.Schemas.{Params}
use hyprland_agent.Orchestrator.Processes.{is_in}
use hyprland_agent.Daemon.PubSub.{Topic, empty_bus}
use hyprland_agent.Daemon.Server.{Frame, Read, Turn, Connection}
use hyprland_agent.Daemon.Server.Answers.{answers_to}

abbrev connection : Connection
connection = record { subs = []; bus = empty_bus; outbound = [] }

abbrev echo : Text → Text → Params → Params
echo id method params = params

abbrev turns : List Turn
turns =
    (false, Read.frame (Frame.subscribe_to (Topic.runs ∷ [])))
    ∷ (false, Read.bad (codes "invalid JSON"))
    ∷ (false, Read.frame (Frame.request (codes "1") (codes "list_runs") []))
    ∷ (false, Read.bad (codes "connection closed mid-frame"))
    ∷ (false, Read.frame (Frame.request (codes "2") (codes "list_runs") []))
    ∷ []

answered : answers_to echo turns ≡ Frame.response (codes "1") [] ∷ []
unfolding is_in
answered = refl
