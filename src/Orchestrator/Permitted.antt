-- ===== src/Orchestrator/Permitted.antt =====
-- What the gates of `src/agent/orchestrator.py` promise about each step.
use hyprland_agent.Prelude.{
  Text, codes, ◌≡◌, refl, ◌⊎◌, Bool, true, false, Option, none, some, [], ◌∷◌, ◌++◌, All, text_key,
  lookup, if◌then◌else◌,
}
use hyprland_agent.Schemas.{ActionKind, ActionResult, Params, Value, Window}
use hyprland_agent.Safety.Sanitize.{sanitize_command}
use hyprland_agent.Safety.Confirm.{is_destructive_dispatch}
use hyprland_agent.Orchestrator.Exec.{
  Error, Reply, Step, Exec, bind, after, found_value, need, as_text, call, All-bind,
}
use hyprland_agent.Orchestrator.Actions.{
  Answers, is_control_terminal, convert, catch_file_errors, catch_permission,
}

-- No terminal that runs an agent has the focus.
abbrev pub IsSafeTarget : Answers → Type 0
IsSafeTarget a =
    (a.active ≡ Reply.ok none)
    ⊎ ((w : Window) × (a.active ≡ Reply.ok (some w)) × (is_control_terminal a.processes w ≡ false))

-- A command passed the deny patterns; keys go to a safe target; a dispatch is harmless, or
-- confirmed, or only moves the focus; a file is written anew, appended to, or the user agreed.
abbrev pub Permitted : Answers → Step → Type 0
Permitted a (Step.ran_command command run visible hold cap stdin) =
    (sanitize_command command).0 ≡ true
Permitted a (Step.typed v) = IsSafeTarget a
Permitted a (Step.pressed v) = IsSafeTarget a
Permitted a (Step.dispatched cmd) =
    (is_destructive_dispatch cmd ≡ false)
    ⊎ (a.confirmed ≡ true)
    ⊎ ((address : Text) × (cmd ≡ codes "focuswindow address:" ++ address))
Permitted a (Step.write_file path content append) =
    (append ≡ true) ⊎ (a.target_exists ≡ false) ⊎ (a.confirmed ≡ true)
Permitted a _ = Unit

module _ (P : Step → Type 0) where
  found_value-All : (key : Text) (o : Option Value) → All P (found_value key o).1
  found_value-All key none = tt
  found_value-All key (some v) = tt

  need-All : (key : Text) (p : Params) → All P (need key p).1
  unfolding need
  need-All key p = found_value-All key (lookup key p)

  as_text-All : (v : Value) → All P (as_text v).1
  unfolding as_text
  as_text-All (Value.text t) = tt
  as_text-All (Value.null) = tt
  as_text-All (Value.flag b) = tt
  as_text-All (Value.num n) = tt

  convert-All : {A : Type 0} (o : Option A) → All P (convert o).1
  unfolding convert
  convert-All none = tt
  convert-All (some a) = tt

  pub catch_file_errors-All :
      (k : ActionKind) (m : Exec ActionResult) → All P m.1 → All P (catch_file_errors k m).1
  unfolding catch_file_errors
  catch_file_errors-All k (Reply.ok r, steps) h = h
  catch_file_errors-All k (Reply.failed (Error.file_not_found why), steps) h = h
  catch_file_errors-All k (Reply.failed (Error.permission why), steps) h = h
  catch_file_errors-All k (Reply.failed (Error.not_a_directory why), steps) h = h
  catch_file_errors-All k (Reply.failed (Error.other why), steps) h = h
  catch_file_errors-All k (Reply.failed (Error.key_error why), steps) h = h
  catch_file_errors-All k (Reply.failed (Error.type_error), steps) h = h
  catch_file_errors-All k (Reply.failed (Error.kill_switch_set), steps) h = h
  catch_file_errors-All k (Reply.failed (Error.stuck_error kind), steps) h = h

  pub catch_permission-All :
      (k : ActionKind) (m : Exec ActionResult) → All P m.1 → All P (catch_permission k m).1
  unfolding catch_permission
  catch_permission-All k (Reply.ok r, steps) h = h
  catch_permission-All k (Reply.failed (Error.file_not_found why), steps) h = h
  catch_permission-All k (Reply.failed (Error.permission why), steps) h = h
  catch_permission-All k (Reply.failed (Error.not_a_directory why), steps) h = h
  catch_permission-All k (Reply.failed (Error.other why), steps) h = h
  catch_permission-All k (Reply.failed (Error.key_error why), steps) h = h
  catch_permission-All k (Reply.failed (Error.type_error), steps) h = h
  catch_permission-All k (Reply.failed (Error.kill_switch_set), steps) h = h
  catch_permission-All k (Reply.failed (Error.stuck_error kind), steps) h = h

  -- A value that is needed first, then the rest.
  pub need_then :
      {B : Type 0} (key : Text) (p : Params) (f : Value → Exec B)
      → ((v : Value) → All P (f v).1)
      → All P (bind (need key p) f).1
  need_then key p f rest = All-bind P (need key p) f (need-All key p) (λ a e. rest a)

  pub text_then :
      {B : Type 0} (v : Value) (f : Text → Exec B)
      → ((t : Text) → All P (f t).1)
      → All P (bind (as_text v) f).1
  text_then v f rest = All-bind P (as_text v) f (as_text-All v) (λ a e. rest a)

  pub convert_then :
      {A B : Type 0} (o : Option A) (f : A → Exec B)
      → ((a : A) → All P (f a).1)
      → All P (bind (convert o) f).1
  convert_then o f rest = All-bind P (convert o) f (convert-All o) (λ a e. rest a)

  -- One call of a tool that is permitted, and a result.
  pub call_then :
      {A B : Type 0} (step : Step) (r : Reply A) (f : A → Exec B)
      → P step
      → ((a : A) → All P (f a).1)
      → All P (bind (call step r) f).1
  unfolding call
  call_then step r f p rest = All-bind P (call step r) f (p, tt) (λ a e. rest a)

  pub choose_All :
      {B : Type 0} (b : Bool) (m n : Exec B)
      → (b ≡ true → All P m.1)
      → (b ≡ false → All P n.1)
      → All P (if b then m else n).1
  choose_All true m n h k = h refl
  choose_All false m n h k = k refl

  pub after-All :
      {B : Type 0} (step : Step) (m : Exec B) → P step → All P m.1 → All P (after (step ∷ []) m).1
  unfolding after
  after-All step m p h = (p, h)
