-- ===== src/Config/Tests.antt =====
-- Runs of `src/agent/config.py` and `src/agent/brain/router.py`, and the theorems about them at inputs.
use hyprland_agent.Prelude.{
  ◌≡◌, refl, Text, codes, text_eq, true, false, Option, none, some, [], ◌∷◌, text_key,
  if◌then◌else◌,
}
use hyprland_agent.Schemas.{Number}
use hyprland_agent.Safety.Sanitize.{strip}
use hyprland_agent.Config.Yaml.{
  Float, Yaml, done, item, empty, entry, Failure, Result, ok, err, ◌>>=◌, Conversions,
}
use hyprland_agent.Config.Providers.{
  known, normalize_provider, normalize_all, from_keys, read_order, nonempty, read_enabled,
  read_providers, read_default, brain_config,
}
use hyprland_agent.Config.Sections.{
  at_least, as_share, clamp_int, memory_config, decay_config, learning_config, rate_limit_config,
  terminal_config, integrations_config, context_config, check_keys, str_all, str_entries,
}
use hyprland_agent.Config.Load.{AgentConfig, read_mapping, load_config}
use hyprland_agent.Config.Bounds.{Accepted, load_config-Accepted}
use hyprland_agent.Config.Router.{
  Brain, Refusal, Choice, providers, build_entry, build_provider, when_available, entry_available,
  provider_available, choose_auto, choose, get_brain,
}
use hyprland_agent.Config.Chosen.{Picks, Selected, get_brain-Picks, get_brain-Selected}

abbrev conv : Conversions
conv = record {
  int = λ v. elim v [ Yaml.whole n ↦ ok n | _ ↦ err Failure.type_error ];
  float = λ v. elim v [ Yaml.real n ↦ ok n | _ ↦ err Failure.type_error ];
  str = λ v. elim v [ Yaml.text t ↦ t | _ ↦ [] ];
}

-- The order is groq, claude and groq again; claude is switched off.
abbrev file : Option (Result Yaml)
file = some (
    ok (
      Yaml.mapping (
        entry (Yaml.text (codes "brain"))
          (Yaml.mapping (
            entry (Yaml.text (codes "auto_order"))
              (Yaml.list (
                item (Yaml.text (codes "groq"))
                  (item (Yaml.text (codes "Claude")) (item (Yaml.text (codes "groq")) done))))
              (entry (Yaml.text (codes "providers"))
                (Yaml.mapping (entry (Yaml.text (codes "claude")) (Yaml.flag false) empty)) empty)))
          empty)))

abbrev fallback : AgentConfig
fallback = record {
  brain = record {
    default = codes "auto";
    auto_order = codes "groq" ∷ codes "claude" ∷ [];
    providers =
        (codes "claude", false)
        ∷ (codes "openai", true)
        ∷ (codes "moonshot", true)
        ∷ (codes "groq", true)
        ∷ (codes "together", true)
        ∷ (codes "zai", true)
        ∷ (codes "qwen", true)
        ∷ [];
  };
  memory = record {
    enabled = true;
    recall_k = 3;
    embedder_model = codes "intfloat/multilingual-e5-large";
    filter_failure_in_recall = true;
  };
  learning = record {
    enabled = true;
    mining_interval_s = 300;
    rule_mining_enabled = true;
    allowlist_mining_enabled = true;
    decay = record {
      enabled = true;
      half_life_days = 90;
      prune_threshold = Float.finite (Number.nonneg 100000000);
      cleanup_interval_s = 3600;
    };
  };
  rate_limit = record {
    gui_actions_per_minute = 30;
    terminal_commands_per_minute = 10;
    other_actions_per_minute = 60;
  };
  terminal = record { capture_cap_kb = 64 };
  integrations = record {
    enabled = [];
    binary_overrides = [];
    mako_app_name = codes "hyprland-agent";
    voice_enabled = false;
  };
  context = record { keep_rounds = 3; budget_tokens = 160000 };
  audit_log = false;
}

accepted : load_config conv file ≡ ok fallback
unfolding load_config read_mapping brain_config memory_config learning_config decay_config
    rate_limit_config terminal_config integrations_config context_config clamp_int at_least as_share
    check_keys str_all str_entries known normalize_provider normalize_all from_keys read_order
    nonempty read_enabled read_providers read_default ◌>>=◌
accepted = refl

load_config-Accepted_example : Accepted conv fallback
load_config-Accepted_example = load_config-Accepted conv file fallback accepted

-- A pruning threshold that is no number passes both comparisons.
nan_passes : as_share Float.nan ≡ ok Float.nan
unfolding as_share
nan_passes = refl

-- A number that is none is no `ConfigError`, so the selection of a brain does not report it.
bad_number :
    get_brain
      (λ name. none)
      (load_config conv (
        some (
          ok (
            Yaml.mapping (
              entry
                (Yaml.text (codes "memory"))
                (Yaml.mapping (entry (Yaml.text (codes "recall_k")) (Yaml.null) empty))
                empty)))))
      none
    ≡ Choice.refused (Refusal.load_error Failure.type_error)
unfolding get_brain load_config read_mapping brain_config memory_config clamp_int read_order
    nonempty from_keys read_providers read_default ◌>>=◌
bad_number = refl

abbrev environ : Text → Option Text
environ name = if text_eq name (codes "GROQ_API_KEY") then some (codes "k") else none

get_brain-Picks_example :
    Picks environ fallback.brain fallback.brain.auto_order 2
      (get_brain environ (load_config conv file) none)
get_brain-Picks_example = get_brain-Picks environ conv file none fallback accepted refl

abbrev groq : Brain
groq =
    Brain.compatible (codes "k") (codes "meta-llama/llama-4-maverick-17b-128e-instruct")
      (some (codes "https://api.groq.com/openai/v1"))

chosen_groq : get_brain environ (load_config conv file) none ≡ Choice.chosen groq
unfolding get_brain choose choose_auto when_available provider_available entry_available
    build_provider build_entry providers strip
chosen_groq = rw accepted refl

get_brain-Selected_example : Selected environ fallback.brain (Choice.chosen groq)
get_brain-Selected_example =
    get_brain-Selected environ conv file none fallback groq accepted chosen_groq
