-- ===== src/Config/Router.antt =====
-- `src/agent/brain/router.py`, and the providers and `build_brain` of `src/agent/brain/openai_brain.py`.
use hyprland_agent.Prelude.{
  Text, codes, text_eq, lower, Bool, true, false, not, Option, none, some, List, [], ◌∷◌, ◌++◌,
  Dict, text_key, lookup, if◌then◌else◌,
}
use hyprland_agent.Safety.Confirm.{member}
use hyprland_agent.Safety.Sanitize.{strip}
use hyprland_agent.Config.Yaml.{Failure, Result, ok, err}
use hyprland_agent.Config.Providers.{known_providers, canonical, BrainConfig, is_enabled}
use hyprland_agent.Config.Load.{AgentConfig}

pub record ProviderConfig : Type 0 where
  pub name : Text
  pub key_env : Text
  pub model_env : Text
  pub default_model : Text
  pub base_url : Option Text

unfoldable pub providers : Dict Text ProviderConfig
providers =
    (
      codes "openai",
      record {
        name = codes "OpenAI";
        key_env = codes "OPENAI_API_KEY";
        model_env = codes "OPENAI_MODEL";
        default_model = codes "gpt-5.2";
        base_url = none;
      },
    )
    ∷ (
      codes "moonshot",
      record {
        name = codes "Moonshot";
        key_env = codes "MOONSHOT_API_KEY";
        model_env = codes "MOONSHOT_MODEL";
        default_model = codes "kimi-k2.6";
        base_url = some (codes "https://api.moonshot.ai/v1");
      },
    )
    ∷ (
      codes "groq",
      record {
        name = codes "Groq";
        key_env = codes "GROQ_API_KEY";
        model_env = codes "GROQ_MODEL";
        default_model = codes "meta-llama/llama-4-maverick-17b-128e-instruct";
        base_url = some (codes "https://api.groq.com/openai/v1");
      },
    )
    ∷ (
      codes "together",
      record {
        name = codes "Together";
        key_env = codes "TOGETHER_API_KEY";
        model_env = codes "TOGETHER_MODEL";
        default_model = codes "meta-llama/Llama-4-Maverick-17B-128E-Instruct-FP8";
        base_url = some (codes "https://api.together.xyz/v1");
      },
    )
    ∷ (
      codes "zai",
      record {
        name = codes "Z.AI";
        key_env = codes "ZAI_API_KEY";
        model_env = codes "ZAI_MODEL";
        default_model = codes "glm-4.6v";
        base_url = some (codes "https://api.z.ai/api/paas/v4");
      },
    )
    ∷ (
      codes "qwen",
      record {
        name = codes "Qwen";
        key_env = codes "DASHSCOPE_API_KEY";
        model_env = codes "QWEN_MODEL";
        default_model = codes "qwen3-vl-235b-a22b-instruct";
        base_url = some (codes "https://dashscope-intl.aliyuncs.com/compatible-mode/v1");
      },
    )
    ∷ []

pub data Brain : Type 0 where
  claude : Brain
  -- the key, the model, the base URL
  compatible : Text → Text → Option Text → Brain

-- `BrainSelectionError` by its cases, the `RuntimeError` of `build_brain`, the `KeyError` of a
-- provider without an entry, and the errors of `load_config` that are no `ConfigError`.
pub data Refusal : Type 0 where
  invalid_config : Refusal
  unknown disabled unavailable : Text → Refusal
  none_available : List Text → Refusal
  key_not_set no_entry : Text → Refusal
  load_error : Failure → Refusal

pub data Choice : Type 0 where
  chosen : Brain → Choice
  refused : Refusal → Choice

abbrev pub text_or : Text → Option Text → Text
text_or default none = default
text_or default (some t) = t

abbrev pub is_empty : Text → Bool
is_empty [] = true
is_empty (c ∷ cs) = false

-- The environment: `os.environ.get(name)`.
module _ (environ : Text → Option Text) where
  -- `os.environ.get(name, "").strip()`
  abbrev pub variable : Text → Text
  variable name = strip (text_or [] (environ name))

  -- Whether there are credentials, and why not; `none` is a `KeyError`.
  unfoldable pub entry_available : Option ProviderConfig → Option (Bool × Text)
  entry_available none = none
  entry_available (some cfg) =
      if is_empty (variable cfg.key_env)
      then some (false, cfg.key_env ++ codes " not set")
      else some (true, cfg.key_env ++ codes " set")

  unfoldable pub provider_available : Text → Option (Bool × Text)
  provider_available provider =
      if text_eq provider (codes "claude")
      then if is_empty (variable (codes "ANTHROPIC_API_KEY"))
        then some (false, codes "ANTHROPIC_API_KEY not set")
        else some (true, codes "available")
      else entry_available (lookup provider providers)

  unfoldable pub build_entry : Text → Option ProviderConfig → Choice
  build_entry provider none = Choice.refused (Refusal.no_entry provider)
  build_entry provider (some cfg) =
      if is_empty (variable cfg.key_env)
      then Choice.refused (Refusal.key_not_set cfg.key_env)
      else Choice.chosen (
          Brain.compatible (variable cfg.key_env)
            (text_or cfg.default_model (environ cfg.model_env)) cfg.base_url)

  unfoldable pub build_provider : Text → Choice
  build_provider provider =
      if text_eq provider (codes "claude")
      then Choice.chosen Brain.claude
      else build_entry provider (lookup provider providers)

  unfoldable pub when_available : Text → Choice → (Text → Choice) → Option (Bool × Text) → Choice
  when_available provider build otherwise none = Choice.refused (Refusal.no_entry provider)
  when_available provider build otherwise (some (true, reason)) = build
  when_available provider build otherwise (some (false, reason)) = otherwise reason

  -- `for provider in config.brain.auto_order`
  unfoldable pub choose_auto : BrainConfig → List Text → List Text → Choice
  choose_auto cfg checked [] = Choice.refused (Refusal.none_available checked)
  choose_auto cfg checked (p ∷ ps) =
      let skipped = choose_auto cfg (checked ++ ((p ++ codes ": disabled") ∷ [])) ps in
      let tried =
        when_available p (build_provider p)
          (λ reason. choose_auto cfg (checked ++ ((p ++ codes ": " ++ reason) ∷ [])) ps)
          (provider_available p) in
      if is_enabled cfg p then tried else skipped

  unfoldable pub choose_named : BrainConfig → Text → Choice
  choose_named cfg choice =
      let provider = canonical choice in
      if not (member provider known_providers)
      then Choice.refused (Refusal.unknown choice)
      else if not (is_enabled cfg provider)
      then Choice.refused (Refusal.disabled provider)
      else when_available provider (build_provider provider)
          (λ reason. Choice.refused (Refusal.unavailable provider)) (provider_available provider)

  -- `a or b`
  abbrev pub nonempty_or : Option Text → Text → Text
  nonempty_or none b = b
  nonempty_or (some []) b = b
  nonempty_or (some (c ∷ cs)) b = c ∷ cs

  -- `(override or configured_default or "auto").lower()`
  abbrev pub choice_of : BrainConfig → Option Text → Text
  choice_of cfg override =
      lower (nonempty_or override (nonempty_or (some cfg.default) (codes "auto")))

  unfoldable pub choose : BrainConfig → Text → Choice
  choose cfg choice =
      if text_eq choice (codes "auto")
      then choose_auto cfg [] cfg.auto_order
      else choose_named cfg choice

  unfoldable pub get_brain : Result AgentConfig → Option Text → Choice
  get_brain (ok config) override = choose config.brain (choice_of config.brain override)
  get_brain (err Failure.config_error) override = Choice.refused Refusal.invalid_config
  get_brain (err e) override = Choice.refused (Refusal.load_error e)

-- `selectable_providers`
unfoldable pub selectable : BrainConfig → List Text → List Text
selectable cfg [] = []
selectable cfg (p ∷ ps) =
    let rest = selectable cfg ps in if is_enabled cfg p then p ∷ rest else rest

abbrev pub selectable_providers : AgentConfig → List Text
selectable_providers config = selectable config.brain config.brain.auto_order
