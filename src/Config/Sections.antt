-- ===== src/Config/Sections.antt =====
-- The other sections that `src/agent/config.py` reads.
use hyprland_agent.Prelude.{
  ℕ, Text, codes, Bool, true, false, List, [], ◌∷◌, Dict, text_key, insert, ltb, if◌then◌else◌,
}
use hyprland_agent.Schemas.{Number}
use hyprland_agent.Safety.Confirm.{member}
use hyprland_agent.Safety.RateLimit.{RateLimitConfig}
use hyprland_agent.Brain.Claude.{ContextConfig}
use hyprland_agent.Config.Yaml.{
  Float, Yaml, Items, done, item, Entries, empty, entry, Failure, Result, ok, err, ◌>>=◌, ◌>>◌,
  expect, get_or, truthy, section, as_list, Conversions,
}

-- `key must be >= lo`, for a lower bound that is not negative.
unfoldable pub at_least : ℕ → Number → Result ℕ
at_least lo (Number.nonneg n) = if ltb n lo then err Failure.config_error else ok n
at_least lo (Number.neg n) = err Failure.config_error

pub record MemoryConfig : Type 0 where
  pub enabled : Bool
  pub recall_k : ℕ
  pub embedder_model : Text
  pub filter_failure_in_recall : Bool

pub record DecayConfig : Type 0 where
  pub enabled : Bool
  pub half_life_days : ℕ
  pub prune_threshold : Float
  pub cleanup_interval_s : ℕ

pub record LearningConfig : Type 0 where
  pub enabled : Bool
  pub mining_interval_s : ℕ
  pub rule_mining_enabled : Bool
  pub allowlist_mining_enabled : Bool
  pub decay : DecayConfig

pub record TerminalConfig : Type 0 where
  pub capture_cap_kb : ℕ

-- `voice_enabled` is the field of `VoiceCoreConfig`.
pub record IntegrationsConfig : Type 0 where
  pub enabled : List Text
  pub binary_overrides : List (Text × Text)
  pub mako_app_name : Text
  pub voice_enabled : Bool

abbrev billion : ℕ
billion = 1000000000

-- `if prune < 0.0 or prune > 1.0: raise ...`: both comparisons are false of a NaN.
unfoldable pub as_share : Float → Result Float
as_share (Float.nan) = ok Float.nan
as_share (Float.infinite below) = err Failure.config_error
as_share (Float.finite (Number.nonneg n)) =
    if ltb billion n then err Failure.config_error else ok (Float.finite (Number.nonneg n))
as_share (Float.finite (Number.neg n)) = err Failure.config_error

-- `bool(raw.get(key, default))`
abbrev pub flag_or : Text → Bool → Entries → Bool
flag_or key default raw = truthy (get_or key (Yaml.flag default) raw)

abbrev whole_of : ℕ → Yaml
whole_of n = Yaml.whole (Number.nonneg n)

module _ (conv : Conversions) where
  -- `_clamp_int(raw, key, default, lo)`: no call gives an upper bound.
  unfoldable pub clamp_int : Entries → Text → ℕ → ℕ → Result ℕ
  clamp_int raw key default lo = conv.int (get_or key (whole_of default) raw) >>= at_least lo

  unfoldable pub memory_config : Entries → Result MemoryConfig
  memory_config top = do
    raw ← section (codes "memory") top
    recall_k ← clamp_int raw (codes "recall_k") 3 1
    ok (record {
      enabled = flag_or (codes "enabled") true raw;
      recall_k = recall_k;
      embedder_model = conv.str (
          get_or (codes "embedder_model") (Yaml.text (codes "intfloat/multilingual-e5-large")) raw);
      filter_failure_in_recall = flag_or (codes "filter_failure_in_recall") true raw;
    })

  unfoldable pub decay_config : Entries → Result DecayConfig
  decay_config raw_parent = do
    raw ← section (codes "decay") raw_parent
    prune ←
        conv.float (
          get_or (codes "prune_threshold") (Yaml.real (Float.finite (Number.nonneg 100000000))) raw)
    share ← as_share prune
    half_life ← clamp_int raw (codes "half_life_days") 90 1
    interval ← clamp_int raw (codes "cleanup_interval_s") 3600 1
    ok (record {
      enabled = flag_or (codes "enabled") true raw;
      half_life_days = half_life;
      prune_threshold = share;
      cleanup_interval_s = interval;
    })

  unfoldable pub learning_config : Entries → Result LearningConfig
  learning_config top = do
    raw ← section (codes "learning") top
    interval ← clamp_int raw (codes "mining_interval_s") 300 1
    decay ← decay_config raw
    ok (record {
      enabled = flag_or (codes "enabled") true raw;
      mining_interval_s = interval;
      rule_mining_enabled = flag_or (codes "rule_mining_enabled") true raw;
      allowlist_mining_enabled = flag_or (codes "allowlist_mining_enabled") true raw;
      decay = decay;
    })

  unfoldable pub rate_limit_config : Entries → Result RateLimitConfig
  rate_limit_config top = do
    raw ← section (codes "rate_limit") top
    gui ← clamp_int raw (codes "gui_actions_per_minute") 30 0
    terminal ← clamp_int raw (codes "terminal_commands_per_minute") 10 0
    other ← clamp_int raw (codes "other_actions_per_minute") 60 0
    ok (record {
      gui_actions_per_minute = gui;
      terminal_commands_per_minute = terminal;
      other_actions_per_minute = other;
    })

  unfoldable pub terminal_config : Entries → Result TerminalConfig
  terminal_config top = do
    raw ← section (codes "terminal") top
    cap ← clamp_int raw (codes "capture_cap_kb") 64 1
    ok (record { capture_cap_kb = cap })

  unfoldable pub context_config : Entries → Result ContextConfig
  context_config top = do
    raw ← section (codes "context") top
    budget ← clamp_int raw (codes "budget_tokens") 160000 1
    rounds ← clamp_int raw (codes "keep_rounds") 3 0
    ok (record { keep_rounds = rounds; budget_tokens = budget })

  abbrev known_keys : List Text
  known_keys =
      codes "enabled" ∷ codes "binary_overrides" ∷ codes "mako_app_name" ∷ codes "voice" ∷ []

  abbrev is_known_key : Yaml → Bool
  is_known_key (Yaml.text t) = member t known_keys
  is_known_key v = false

  -- `for key in raw: if key not in known_keys: raise ...`
  unfoldable pub check_keys : Entries → Result Unit
  check_keys empty = ok tt
  check_keys (entry key v more) = do expect (is_known_key key); check_keys more

  unfoldable pub str_all : Items → List Text
  str_all done = []
  str_all (item v more) = conv.str v ∷ str_all more

  -- `{str(k): str(v) for k, v in raw_overrides.items()}`
  unfoldable pub str_entries : Dict Text Text → Entries → Dict Text Text
  str_entries d empty = d
  str_entries d (entry k v more) = str_entries (insert (conv.str k) (conv.str v) d) more

  unfoldable pub integrations_config : Entries → Result IntegrationsConfig
  integrations_config top = do
    raw ← section (codes "integrations") top
    check_keys raw
    names ← as_list (get_or (codes "enabled") (Yaml.list done) raw)
    overrides ← section (codes "binary_overrides") raw
    voice ← section (codes "voice") raw
    ok (record {
      enabled = str_all names;
      binary_overrides = str_entries [] overrides;
      mako_app_name =
          conv.str (get_or (codes "mako_app_name") (Yaml.text (codes "hyprland-agent")) raw);
      voice_enabled = flag_or (codes "enabled") false voice;
    })
