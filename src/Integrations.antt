-- ===== src/Integrations.antt =====
-- `IntegrationRegistry` of `src/agent/integrations/__init__.py`: loading, the handling of actions and
-- the end. An integration is given by its answers; the conversion to `int` is given.
pub mod Lifecycle
mod Tests
use hyprland_agent.Prelude.{
  ℕ, Text, text_eq, Bool, true, false, ◌&&◌, Option, none, some, List, [], ◌∷◌, ◌++◌, Dict,
  text_key, insert, if◌then◌else◌, codes,
}
use mathlib.Core.List.{reverse}
use hyprland_agent.Schemas.{Action, ActionResult, Number}
use hyprland_agent.Safety.Confirm.{member}
use hyprland_agent.Orchestrator.Exec.{Error, Reply}
use hyprland_agent.Daemon.Server.{parse_major, number_eq}

pub record CapabilitySpec : Type 0 where
  pub name : Text
  pub action_kinds : List Text
  pub context_keys : List Text
  pub api_version : Text

-- What the integration's methods answer.
pub record Integration : Type 0 where
  pub name : Text
  pub capabilities : List CapabilitySpec
  pub setup : Reply Unit
  pub teardown : Reply Unit
  pub handle : Action → Reply (Option ActionResult)

-- An entry point, and what `ep.load()()` gives; `none` is an exception.
pub record EntryPoint : Type 0 where
  pub name : Text
  pub loaded : Option Integration

pub record Registry : Type 0 where
  pub integrations : List Integration
  pub status : Dict Text Text

abbrev pub empty_registry : Registry
empty_registry = record { integrations = []; status = [] }

abbrev pub with_state : Registry → Text → Text → Registry
with_state r name state = record r { status = insert name state r.status }

-- `probe_binary`, by whether `shutil.which` finds the binary.
unfoldable pub probe_binary : Bool → Text → Registry → Bool × Registry
probe_binary true name r = (true, r)
probe_binary false name r = (false, with_state r name (codes "degraded"))

abbrev pub after_setup : Integration → Registry → Reply Unit → Registry
after_setup integ r (Reply.ok u) =
    with_state (record r { integrations = r.integrations ++ integ ∷ [] }) integ.name (codes "ready")
after_setup integ r (Reply.failed e) = with_state r integ.name (codes "degraded")

-- `_setup_one`
unfoldable pub setup_one : Integration → Registry → Registry
setup_one integ r = after_setup integ r integ.setup

module _ (to_int : Text → Option Number) (api_version : Text) where
  abbrev pub version_ok : Text → Bool
  version_ok spec_version =
      number_eq (parse_major to_int spec_version) (parse_major to_int api_version)

  -- The first capability of another major version ends the loop, which then has no `else`.
  unfoldable pub versions_ok : List CapabilitySpec → Bool
  versions_ok [] = true
  versions_ok (cap ∷ caps) =
      let rest = versions_ok caps in if version_ok cap.api_version then rest else false

  unfoldable pub load_one : Text → Registry → Option Integration → Registry
  load_one ep_name r none = with_state r ep_name (codes "missing")
  load_one ep_name r (some integ) =
      if versions_ok integ.capabilities
      then setup_one integ r
      else with_state r integ.name (codes "missing")

  -- `enabled is not None and ep.name not in enabled`
  abbrev pub is_wanted : Option (List Text) → Text → Bool
  is_wanted none name = true
  is_wanted (some names) name = member name names

  unfoldable pub load : Registry → Option (List Text) → List EntryPoint → Registry
  load r enabled [] = r
  load r enabled (ep ∷ eps) =
      let more = load (load_one ep.name r ep.loaded) enabled eps in
      let skipped = load r enabled eps in if is_wanted enabled ep.name then more else skipped

-- The first answer that is not `None`; an exception is logged.
unfoldable pub first_answer :
    Reply (Option ActionResult) → Option ActionResult → Option ActionResult
first_answer (Reply.ok (some r)) later = some r
first_answer (Reply.ok none) later = later
first_answer (Reply.failed e) later = later

unfoldable pub handle_by : List Integration → Action → Option ActionResult
handle_by [] action = none
handle_by (integ ∷ integs) action = first_answer (integ.handle action) (handle_by integs action)

abbrev pub handle : Registry → Action → Option ActionResult
handle r action = handle_by r.integrations action

abbrev pub names_of : List Integration → List Text
names_of [] = []
names_of (integ ∷ integs) = integ.name ∷ names_of integs

-- The integrations that are ended, in their order, whatever each answers, and the registry after.
unfoldable pub teardown : Registry → List Text × Registry
teardown r = (names_of (reverse r.integrations), record r { integrations = [] })

unfoldable pub capabilities_of : List Integration → List CapabilitySpec
capabilities_of [] = []
capabilities_of (integ ∷ integs) = integ.capabilities ++ capabilities_of integs

abbrev pub capabilities : Registry → List CapabilitySpec
capabilities r = capabilities_of r.integrations
