-- ===== src/Integrations/Tests.antt =====
-- A run of the registry of `src/agent/integrations/__init__.py`: of two integrations the second cannot be
-- set up, and the third is not wanted.
use hyprland_agent.Prelude.{◌≡◌, refl, Text, codes, String, none, some, List, [], ◌∷◌, Option}
use hyprland_agent.Schemas.{ActionKind, Action, Number}
use hyprland_agent.Orchestrator.Exec.{Error, Reply}
use hyprland_agent.Daemon.Server.{parse_major, before_dot}
use hyprland_agent.Integrations.{
  Integration, EntryPoint, empty_registry, setup_one, versions_ok, load_one, load, teardown, handle,
}

abbrev to_int : Text → Option Number
to_int t = some (Number.nonneg 1)

abbrev integration : String → Reply Unit → Integration
integration name setup = record {
  name = codes name;
  capabilities =
      record { name = codes "c"; action_kinds = []; context_keys = []; api_version = codes "1.0" }
      ∷ [];
  setup = setup;
  teardown = Reply.ok tt;
  handle = λ action. Reply.ok none;
}

abbrev eps : List EntryPoint
eps =
    record { name = codes "mako"; loaded = some (integration "mako" (Reply.ok tt)) }
    ∷ record {
      name = codes "voice";
      loaded = some (integration "voice" (Reply.failed (Error.other [])));
    }
    ∷ record { name = codes "idle"; loaded = none }
    ∷ []

loaded :
    (load to_int (codes "1.2") empty_registry (some (codes "mako" ∷ codes "voice" ∷ [])) eps).status
    ≡ (codes "mako", codes "ready") ∷ (codes "voice", codes "degraded") ∷ []
unfolding load load_one setup_one versions_ok parse_major before_dot
loaded = refl

abbrev wanted : Option (List Text)
wanted = some (codes "mako" ∷ codes "voice" ∷ [])

abbrev action : Action
action = record { kind = ActionKind.clipboard_read; params = [] }
