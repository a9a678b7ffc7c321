-- ===== src/Config/Yaml.antt =====
-- The values of a YAML file as `src/agent/config.py` reads them, and the errors it raises.
use hyprland_agent.Prelude.{
  zero, Text, text_eq, Bool, true, false, Option, none, some, if◌then◌else◌, [], ◌∷◌,
}
use hyprland_agent.Schemas.{Number}

-- A real number: a finite one is given in billionths, and an infinite one is below 0 or not.
pub data Float : Type 0 where
  nan : Float
  infinite : Bool → Float
  finite : Number → Float

mutual
  pub data Yaml : Type 0 where
    null : Yaml
    flag : Bool → Yaml
    whole : Number → Yaml
    real : Float → Yaml
    text : Text → Yaml
    list : Items → Yaml
    mapping : Entries → Yaml

  pub data Items : Type 0 where
    done : Items
    item : Yaml → Items → Items

  pub data Entries : Type 0 where
    empty : Entries
    entry : Yaml → Yaml → Entries → Entries

-- The exceptions, without their messages: `ConfigError`, and those that the conversions and the
-- reading of the file raise.
pub data Failure : Type 0 where
  config_error value_error type_error overflow_error yaml_error : Failure

pub data Result (A : Type 0) : Type 0 where
  ok : A → Result A
  err : Failure → Result A

infixl 5 ◌>>=◌ ◌>>◌
unfoldable pub ◌>>=◌ : {A B : Type 0} → Result A → (A → Result B) → Result B
ok a >>= f = f a
err e >>= f = err e

abbrev pub ◌>>◌ : {B : Type 0} → Result Unit → Result B → Result B
m >> k = m >>= λ _. k

-- `if not test: raise ConfigError(...)`
abbrev pub expect : Bool → Result Unit
expect true = ok tt
expect false = err Failure.config_error

-- `raw.get(key)`, for a key that is a text.
abbrev pub get : Text → Entries → Option Yaml
get key empty = none
get key (entry (Yaml.text t) v more) = if text_eq t key then some v else get key more
get key (entry (Yaml.null) v more) = get key more
get key (entry (Yaml.flag b) v more) = get key more
get key (entry (Yaml.whole n) v more) = get key more
get key (entry (Yaml.real n) v more) = get key more
get key (entry (Yaml.list xs) v more) = get key more
get key (entry (Yaml.mapping xs) v more) = get key more

abbrev pub or_default : Yaml → Option Yaml → Yaml
or_default default none = default
or_default default (some v) = v

-- `raw.get(key, default)`
abbrev pub get_or : Text → Yaml → Entries → Yaml
get_or key default raw = or_default default (get key raw)

-- `bool(v)`
abbrev pub truthy : Yaml → Bool
truthy (Yaml.null) = false
truthy (Yaml.flag b) = b
truthy (Yaml.whole (Number.nonneg zero)) = false
truthy (Yaml.whole n) = true
truthy (Yaml.real (Float.finite (Number.nonneg zero))) = false
truthy (Yaml.real n) = true
truthy (Yaml.text []) = false
truthy (Yaml.text (c ∷ cs)) = true
truthy (Yaml.list done) = false
truthy (Yaml.list (item x xs)) = true
truthy (Yaml.mapping empty) = false
truthy (Yaml.mapping (entry k v more)) = true

-- A value that is a mapping.
abbrev pub as_mapping : Yaml → Result Entries
as_mapping (Yaml.mapping m) = ok m
as_mapping v = err Failure.config_error

-- `v or {}`
abbrev pub or_empty : Yaml → Yaml
or_empty v = if truthy v then v else Yaml.mapping empty

-- `raw = data.get(key, {}) or {}`, and an error where it is no mapping.
abbrev pub section : Text → Entries → Result Entries
section key raw = as_mapping (or_empty (get_or key (Yaml.mapping empty) raw))

abbrev pub as_flag : Yaml → Result Bool
as_flag (Yaml.flag b) = ok b
as_flag v = err Failure.config_error

abbrev pub as_text : Yaml → Result Text
as_text (Yaml.text t) = ok t
as_text v = err Failure.config_error

abbrev pub as_list : Yaml → Result Items
as_list (Yaml.list xs) = ok xs
as_list v = err Failure.config_error

-- The conversions of the language.
pub record Conversions : Type 0 where
  pub int : Yaml → Result Number
  pub float : Yaml → Result Float
  pub str : Yaml → Text
