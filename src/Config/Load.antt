-- ===== src/Config/Load.antt =====
-- `load_config` of `src/agent/config.py`.
use hyprland_agent.Prelude.{codes, Bool, false, Option, none, some}
use hyprland_agent.Safety.RateLimit.{RateLimitConfig}
use hyprland_agent.Brain.Claude.{ContextConfig}
use hyprland_agent.Config.Yaml.{
  Yaml, Entries, empty, Result, ok, ◌>>=◌, get_or, or_empty, as_mapping, as_flag, Conversions,
}
use hyprland_agent.Config.Providers.{BrainConfig, brain_config}
use hyprland_agent.Config.Sections.{
  MemoryConfig, LearningConfig, TerminalConfig, IntegrationsConfig, memory_config, learning_config,
  rate_limit_config, terminal_config, integrations_config, context_config,
}

pub record AgentConfig : Type 0 where
  pub brain : BrainConfig
  pub memory : MemoryConfig
  pub learning : LearningConfig
  pub rate_limit : RateLimitConfig
  pub terminal : TerminalConfig
  pub integrations : IntegrationsConfig
  pub context : ContextConfig
  pub audit_log : Bool

-- What `yaml.safe_load` makes of the file; `none` where there is no file.
unfoldable pub read_mapping : Option (Result Yaml) → Result Entries
read_mapping none = ok empty
read_mapping (some loaded) = loaded >>= λ v. as_mapping (or_empty v)

unfoldable pub load_config : Conversions → Option (Result Yaml) → Result AgentConfig
load_config conv file = do
  top ← read_mapping file
  audit_log ← as_flag (get_or (codes "audit_log") (Yaml.flag false) top)
  brain ← brain_config top
  memory ← memory_config conv top
  learning ← learning_config conv top
  rate_limit ← rate_limit_config conv top
  terminal ← terminal_config conv top
  integrations ← integrations_config conv top
  context ← context_config conv top
  ok (record {
    brain = brain;
    memory = memory;
    learning = learning;
    rate_limit = rate_limit;
    terminal = terminal;
    integrations = integrations;
    context = context;
    audit_log = audit_log;
  })
