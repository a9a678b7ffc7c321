-- ===== src/Orchestrator/Exec.antt =====
-- What the orchestrator does to the outside: steps in their order, and an outcome that may be an
-- exception. The answers of the outside are given.
use hyprland_agent.Prelude.{
  ℕ, Text, Bool, Option, none, some, List, [], ◌∷◌, ◌++◌, ◌≡◌, refl, All, All-append, text_key,
  lookup,
}
use hyprland_agent.Schemas.{ActionKind, Action, ActionResult, Number, Params, Value, Window}

-- The exceptions: the three that file actions catch, with their messages, and others.
pub data Error : Type 0 where
  file_not_found permission not_a_directory other : Text → Error
  key_error : Text → Error
  type_error kill_switch_set : Error
  stuck_error : ActionKind → Error

pub data Reply (A : Type 0) : Type 0 where
  ok : A → Reply A
  failed : Error → Reply A

-- `ctx.emit(kind, payload)`
pub data Emission : Type 0 where
  start : Text → Emission
  blocked_window : Window → Emission
  blocked_terminal : Window → Emission
  state_seen : Option Window → Emission
  killswitch done : Emission
  actions : ℕ → Emission
  action : Action → Emission
  action_result : ActionResult → Emission
  stuck : Action → Emission

-- One thing done: an event emitted, a call of a tool with its arguments, or a call that changes the
-- stop flag or the memory.
pub data Step : Type 0 where
  emitted : Emission → Step
  asked : Text → Step
  -- the command, the run, visible, the holding time, the cap, the input
  ran_command : Text → Text → Bool → ℕ → ℕ → Option Value → Step
  typed pressed clicked clip_wrote : Value → Step
  moved scrolled : Value → Value → Step
  dispatched : Text → Step
  read_file : Value → Number → Number → Step
  write_file : Text → Value → Bool → Step
  list_dir : Value → Bool → Step
  clip_read : Step
  integrated : Action → Step
  -- the stop flag is removed; the memory is asked for a task, which notes the access in its rows
  disarmed : Step
  recalled : Text → Step

abbrev pub Exec : Type 0 → Type 0
Exec A = Reply A × List Step

module _ {A : Type 0} where
  abbrev pub pure : A → Exec A
  pure a = (Reply.ok a, [])

  abbrev pub raise : Error → Exec A
  raise e = (Reply.failed e, [])

  -- The call of a tool, and what it answers.
  unfoldable pub call : Step → Reply A → Exec A
  call step answer = (answer, step ∷ [])

  -- Something done before.
  unfoldable pub after : List Step → Exec A → Exec A
  after steps m = (m.0, steps ++ m.1)

module _ {A B : Type 0} where
  unfoldable pub bind : Exec A → (A → Exec B) → Exec B
  bind (Reply.ok a, steps) f = ((f a).0, steps ++ (f a).1)
  bind (Reply.failed e, steps) f = (Reply.failed e, steps)

  -- What holds of the steps of both parts holds of all.
  pub All-bind {κ} :
      (P : Step → Type κ) (m : Exec A) (f : A → Exec B)
      → All P m.1
      → ((a : A) → m.0 ≡ Reply.ok a → All P (f a).1)
      → All P (bind m f).1
  unfolding bind
  All-bind P (Reply.ok a, steps) f first second = All-append P steps (f a).1 first (second a refl)
  All-bind P (Reply.failed e, steps) f first second = first

abbrev pub found_value : Text → Option Value → Exec Value
found_value key (some v) = pure v
found_value key none = raise (Error.key_error key)

-- `p[key]`
unfoldable pub need : Text → Params → Exec Value
need key params = found_value key (lookup key params)

-- A text where the code calls a method of texts or makes a path.
unfoldable pub as_text : Value → Exec Text
as_text (Value.text t) = pure t
as_text (Value.null) = raise Error.type_error
as_text (Value.flag b) = raise Error.type_error
as_text (Value.num n) = raise Error.type_error
