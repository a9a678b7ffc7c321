-- ===== src/Orchestrator/Keys.antt =====
-- The keys that the handlers of `src/agent/orchestrator.py` read with `p[...]`.
use hyprland_agent.Prelude.{
  Text, codes, Bool, true, false, not, Option, none, some, List, [], ◌∷◌, ◌≡◌, refl, All, text_key,
  lookup, contains, is_some, if◌then◌else◌,
}
use hyprland_agent.Schemas.{ActionKind, Action, ActionResult, Params, Value}
use hyprland_agent.Orchestrator.Exec.{
  Error, Reply, Step, Exec, call, bind, after, need, as_text, found_value,
}
use hyprland_agent.Orchestrator.Actions.{Answers, convert, catch_file_errors, catch_permission}

abbrev pub required_keys : ActionKind → List Text
required_keys ActionKind.terminal_command = codes "command" ∷ []
required_keys ActionKind.type_text = codes "text" ∷ []
required_keys ActionKind.key = codes "combo" ∷ []
required_keys ActionKind.mouse_move = codes "x" ∷ codes "y" ∷ []
required_keys ActionKind.scroll = codes "amount" ∷ []
required_keys ActionKind.focus_window = codes "address" ∷ []
required_keys ActionKind.dispatch = codes "cmd" ∷ []
required_keys ActionKind.read_file = codes "path" ∷ []
required_keys ActionKind.write_file = codes "path" ∷ codes "content" ∷ []
required_keys ActionKind.list_dir = codes "path" ∷ []
required_keys ActionKind.clipboard_write = codes "text" ∷ []
required_keys ActionKind.screenshot = []
required_keys ActionKind.click = []
required_keys ActionKind.notify = []
required_keys ActionKind.update_status = []
required_keys ActionKind.speak = []
required_keys ActionKind.clipboard_read = []

-- The parameters have every key that the handler reads.
abbrev pub Complete : Action → Type 0
Complete a = All (λ key. contains key a.params ≡ true) (required_keys a.kind)

abbrev is_key_error : Error → Bool
is_key_error (Error.key_error key) = true
is_key_error e = false

abbrev pub no_key_error : {A : Type 0} → Reply A → Bool
no_key_error (Reply.ok a) = true
no_key_error (Reply.failed e) = not (is_key_error e)

-- The call does not end by a missing key.
unfoldable pub HasKeys : {A : Type 0} → Exec A → Type 0
HasKeys m = no_key_error m.0 ≡ true

-- No call of the outside answers by a missing key.
abbrev pub AnswersHaveKeys : Answers → Type 0
AnswersHaveKeys a =
    (no_key_error a.active ≡ true)
    × (no_key_error a.input_sent ≡ true)
    × (no_key_error a.terminal ≡ true)
    × (no_key_error a.response ≡ true)
    × (no_key_error a.content ≡ true)
    × (no_key_error a.handled ≡ true)

pub done-HasKeys : {A : Type 0} (a : A) (steps : List Step) → HasKeys (Reply.ok a, steps)
unfolding HasKeys
done-HasKeys a steps = refl

module _ {A B : Type 0} where
  pub bind-HasKeys :
      (m : Exec A) (f : A → Exec B) → HasKeys m → ((a : A) → HasKeys (f a)) → HasKeys (bind m f)
  unfolding bind HasKeys
  bind-HasKeys (Reply.ok a, steps) f h k = k a
  bind-HasKeys (Reply.failed e, steps) f h k = h

found_value-HasKeys :
    (key : Text) (o : Option Value) → is_some o ≡ true → HasKeys (found_value key o)
unfolding HasKeys
found_value-HasKeys key (some v) h = refl
found_value-HasKeys key none h = cc

module _ {B : Type 0} where
  pub need-HasKeys :
      (key : Text) (p : Params) (f : Value → Exec B)
      → contains key p ≡ true
      → ((v : Value) → HasKeys (f v))
      → HasKeys (bind (need key p) f)
  unfolding need
  need-HasKeys key p f h k =
      bind-HasKeys (found_value key (lookup key p)) f (found_value-HasKeys key (lookup key p) h) k

  pub as_text-HasKeys :
      (v : Value) (f : Text → Exec B) → ((t : Text) → HasKeys (f t)) → HasKeys (bind (as_text v) f)
  unfolding as_text bind HasKeys
  as_text-HasKeys (Value.text t) f k = k t
  as_text-HasKeys (Value.null) f k = refl
  as_text-HasKeys (Value.flag b) f k = refl
  as_text-HasKeys (Value.num n) f k = refl

  pub convert-HasKeys :
      {A : Type 0} (o : Option A) (f : A → Exec B)
      → ((a : A) → HasKeys (f a))
      → HasKeys (bind (convert o) f)
  unfolding convert bind HasKeys
  convert-HasKeys none f k = refl
  convert-HasKeys (some a) f k = k a

  pub call-HasKeys :
      {A : Type 0} (step : Step) (r : Reply A) (f : A → Exec B)
      → no_key_error r ≡ true
      → ((a : A) → HasKeys (f a))
      → HasKeys (bind (call step r) f)
  unfolding call HasKeys
  call-HasKeys step r f h k = bind-HasKeys (r, step ∷ []) f h k

pub if-HasKeys :
    {B : Type 0} (b : Bool) (m n : Exec B) → HasKeys m → HasKeys n → HasKeys (if b then m else n)
if-HasKeys true m n h k = h
if-HasKeys false m n h k = k

pub after-HasKeys :
    {B : Type 0} (steps : List Step) (m : Exec B) → HasKeys m → HasKeys (after steps m)
unfolding after HasKeys
after-HasKeys steps m h = h

pub catch_file_errors-HasKeys :
    (k : ActionKind) (m : Exec ActionResult) → HasKeys m → HasKeys (catch_file_errors k m)
unfolding catch_file_errors HasKeys
catch_file_errors-HasKeys k (Reply.ok a, steps) h = refl
catch_file_errors-HasKeys k (Reply.failed e, steps) h =
    elim e
        as (λ x.
          HasKeys {A = ActionResult} (Reply.failed x, steps)
          → HasKeys (catch_file_errors k (Reply.failed x, steps))) [
            | Error.key_error key ↦ λ h'. h'
            | _ ↦ λ h'. refl
          ]
      h

pub catch_permission-HasKeys :
    (k : ActionKind) (m : Exec ActionResult) → HasKeys m → HasKeys (catch_permission k m)
unfolding catch_permission HasKeys
catch_permission-HasKeys k (Reply.ok a, steps) h = refl
catch_permission-HasKeys k (Reply.failed e, steps) h =
    elim e
        as (λ x.
          HasKeys {A = ActionResult} (Reply.failed x, steps)
          → HasKeys (catch_permission k (Reply.failed x, steps))) [
            | Error.key_error key ↦ λ h'. h'
            | _ ↦ λ h'. refl
          ]
      h
