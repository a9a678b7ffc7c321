-- ===== src/Config/Providers.antt =====
-- The providers and `_brain_config` of `src/agent/config.py`.
use hyprland_agent.Prelude.{
  Text, codes, text_eq, lower, Bool, true, false, Option, none, some, List, [], ◌∷◌, Dict, text_key,
  lookup, insert, if◌then◌else◌,
}
use hyprland_agent.Safety.Confirm.{member}
use hyprland_agent.Config.Yaml.{
  Yaml, Items, done, item, Entries, empty, entry, Failure, Result, ok, err, ◌>>=◌, get, get_or,
  section, as_flag, as_text,
}

abbrev pub known_providers : List Text
known_providers =
    codes "claude"
    ∷ codes "openai"
    ∷ codes "moonshot"
    ∷ codes "groq"
    ∷ codes "together"
    ∷ codes "zai"
    ∷ codes "qwen"
    ∷ []

abbrev pub brain_aliases : Dict Text Text
brain_aliases =
    (codes "claude", codes "claude")
    ∷ (codes "openai", codes "openai")
    ∷ (codes "gpt", codes "openai")
    ∷ (codes "moonshot", codes "moonshot")
    ∷ (codes "kimi", codes "moonshot")
    ∷ (codes "k2", codes "moonshot")
    ∷ (codes "groq", codes "groq")
    ∷ (codes "together", codes "together")
    ∷ (codes "togetherai", codes "together")
    ∷ (codes "zai", codes "zai")
    ∷ (codes "glm", codes "zai")
    ∷ (codes "z.ai", codes "zai")
    ∷ (codes "qwen", codes "qwen")
    ∷ (codes "dashscope", codes "qwen")
    ∷ []

-- `BRAIN_ALIASES.get(name, name)`
abbrev pub resolve : Text → Option Text → Text
resolve name none = name
resolve name (some provider) = provider

abbrev pub canonical : Text → Text
canonical name = resolve (lower name) (lookup (lower name) brain_aliases)

-- A provider of the table.
unfoldable pub known : Text → Result Text
known provider = if member provider known_providers then ok provider else err Failure.config_error

unfoldable pub normalize_provider : Yaml → Result Text
normalize_provider name = do t ← as_text name; known (canonical t)

pub record BrainConfig : Type 0 where
  pub default : Text
  pub auto_order : List Text
  pub providers : Dict Text Bool

-- `self.providers.get(provider, False)`
abbrev pub enabled_or : Option Bool → Bool
enabled_or none = false
enabled_or (some b) = b

abbrev pub is_enabled : BrainConfig → Text → Bool
is_enabled cfg provider = enabled_or (lookup provider cfg.providers)

-- `_normalize_provider(item) for item in raw_order`
unfoldable pub normalize_all : Items → Result (List Text)
normalize_all done = ok []
normalize_all (item v more) = do p ← normalize_provider v; ps ← normalize_all more; ok (p ∷ ps)

-- `tuple(dict.fromkeys(...))`: each provider once, where it is named first.
unfoldable pub from_keys : List Text → List Text → List Text
from_keys seen [] = []
from_keys seen (p ∷ ps) =
    let kept = from_keys seen ps in
    let more = from_keys (p ∷ seen) ps in if member p seen then kept else p ∷ more

-- `raw.get("auto_order", DEFAULT_AUTO_ORDER)` is a list or a tuple.
unfoldable pub read_order : Option Yaml → Result (List Text)
read_order none = ok known_providers
read_order (some (Yaml.list xs)) = normalize_all xs
read_order (some v) = err Failure.config_error

unfoldable pub nonempty : List Text → Result (List Text)
nonempty [] = err Failure.config_error
nonempty (p ∷ ps) = ok (p ∷ ps)

abbrev pub all_enabled : List Text → Dict Text Bool
all_enabled [] = []
all_enabled (p ∷ ps) = (p, true) ∷ all_enabled ps

-- `isinstance(provider_cfg, bool)`, or a mapping with `enabled`.
unfoldable pub read_enabled : Yaml → Result Bool
read_enabled (Yaml.flag b) = ok b
read_enabled (Yaml.mapping m) = as_flag (get_or (codes "enabled") (Yaml.flag true) m)
read_enabled v = err Failure.config_error

-- `for name, provider_cfg in raw_providers.items()`
unfoldable pub read_providers : Dict Text Bool → Entries → Result (Dict Text Bool)
read_providers enabled empty = ok enabled
read_providers enabled (entry name cfg more) = do
  provider ← normalize_provider name
  b ← read_enabled cfg
  read_providers (insert provider b enabled) more

-- `if default != "auto": default = _normalize_provider(default)`
unfoldable pub read_default : Text → Result Text
read_default default =
    if text_eq default (codes "auto") then ok default else normalize_provider (Yaml.text default)

unfoldable pub brain_config : Entries → Result BrainConfig
brain_config top = do
  raw ← section (codes "brain") top
  t ← as_text (get_or (codes "default") (Yaml.text (codes "auto")) raw)
  default ← read_default (lower t)
  names ← read_order (get (codes "auto_order") raw)
  auto_order ← nonempty (from_keys [] names)
  given ← section (codes "providers") raw
  providers ← read_providers (all_enabled known_providers) given
  ok (record { default = default; auto_order = auto_order; providers = providers })
