-- ===== src/Safety/Allowlist.antt =====
-- The window allowlist: `src/agent/safety/allowlist.py`. The rules are what the YAML file holds.
mod Tests
use hyprland_agent.Prelude.{
  ℕ, ◌+◌, Text, codes, lower, text_eq, ◌≡◌, ◌≢◌, refl, Bool, true, false, ◌&&◌, ◌||◌, Option, none,
  some, List, [], ◌∷◌, if◌then◌else◌, arith, text_eq_refl, Bool-cases, inl, inr, ap, ◌∙◌, ◌++◌, ◌↔◌,
}
use hyprland_agent.Schemas.{Window}
use hyprland_agent.Safety.Glob.{fnmatch, fnmatch_star}
use hyprland_agent.Safety.Confirm.{member}

-- A rule as it stands in the file: a missing key is `none`.
pub record AllowRule : Type 0 where
  pub class : Option Text
  pub title : Option Text

-- The misses by class and title, with their counts.
abbrev pub Misses : Type 0
Misses = List ((Text × Text) × ℕ)

abbrev pub always_deny : List Text
always_deny =
    codes "1password" ∷ codes "_1password" ∷ codes "keepassxc" ∷ codes "gnome-keyring" ∷ []

unfoldable pub is_always_denied : Window → Bool
is_always_denied window = member (lower window.app_class) always_deny

-- `rule.get(key, "*")`
abbrev pub pattern_of : Option Text → Text
pattern_of none = codes "*"
pattern_of (some pattern) = pattern

-- `_miss_counter[key] += 1`
unfoldable pub add_miss : Text → Text → Misses → Misses
add_miss class title [] = ((class, title), 1) ∷ []
add_miss class title (((c, t), n) ∷ misses) =
    if text_eq c class && text_eq t title
    then ((c, t), n + 1) ∷ misses
    else ((c, t), n) ∷ add_miss class title misses

unfoldable pub matches_rule : AllowRule → Window → Bool
matches_rule rule window =
    fnmatch (lower window.app_class) (lower (pattern_of rule.class))
    && fnmatch (lower window.title) (lower (pattern_of rule.title))

unfoldable pub some_rule : List AllowRule → Window → Bool
unfolding matches_rule
some_rule [] window = false
some_rule (rule ∷ rules) window = matches_rule rule window || some_rule rules window

-- The answer, and the misses after it.
unfoldable pub is_allowed : List AllowRule → Window → Misses → Bool × Misses
is_allowed rules window misses =
    let missed = add_miss window.app_class window.title misses in
    if is_always_denied window then (false, misses) else elim rules [
      | [] ↦ (false, missed)
      | rule ∷ others ↦ if some_rule (rule ∷ others) window then (true, misses) else (false, missed)
    ]

-- `drain_misses`: the misses, and an empty counter.
abbrev pub drain_misses : Misses → Misses × Misses
drain_misses misses = (misses, [])

-- How often a window was missed.
abbrev pub count_of : Text → Text → Misses → ℕ
count_of class title [] = 0
count_of class title (((c, t), n) ∷ misses) =
    if text_eq c class && text_eq t title then n else count_of class title misses

count_of-add_miss :
    (class title : Text) (misses : Misses)
    → count_of class title (add_miss class title misses) ≡ count_of class title misses + 1
unfolding add_miss
count_of-add_miss class title [] = ground (arith, text_eq_refl class, text_eq_refl title)
count_of-add_miss class title (((c, t), n) ∷ misses) =
    ground (arith, count_of-add_miss class title misses)

-- A rule of the list that matches the window.
abbrev pub Matched : List AllowRule → Window → Type 0
Matched rules window =
    (before : List AllowRule) × (rule : AllowRule) × (after : List AllowRule) × (rules
      ≡ before ++ rule ∷ after)
    × (matches_rule rule window ≡ true)

some_rule-Matched :
    (rules : List AllowRule) (window : Window)
    → some_rule rules window ≡ true
    → Matched rules window
unfolding some_rule
some_rule-Matched [] window h = cc
some_rule-Matched (rule ∷ rules) window h = elim (Bool-cases (matches_rule rule window)) [
  | inl hit ↦ ([], rule, rules, refl, hit)
  | inr miss ↦
      let (before, r, after, e, hit) = some_rule-Matched rules window (ground arith) in
      (rule ∷ before, r, after, ap (◌∷◌ rule) e, hit)
]

some_rule-append :
    (before after : List AllowRule) (rule : AllowRule) (window : Window)
    → matches_rule rule window ≡ true
    → some_rule (before ++ rule ∷ after) window ≡ true
unfolding some_rule
some_rule-append [] after rule window h = ground arith
some_rule-append (r ∷ before) after rule window h =
    ground (arith, some_rule-append before after rule window h)

is_allowed-denied :
    (rules : List AllowRule) (window : Window) (misses : Misses)
    → is_always_denied window ≡ true
    → is_allowed rules window misses ≡ (false, misses)
unfolding is_allowed
is_allowed-denied rules window misses h = rw h

not_both : {b : Bool} → b ≡ true → b ≡ false → ⊥
not_both t f = cc

is_allowed-some_rule :
    (rules : List AllowRule) (window : Window) (misses : Misses)
    → is_always_denied window ≡ false
    → is_allowed rules window misses ≡ (
        if some_rule rules window
        then (true, misses)
        else (false, add_miss window.app_class window.title misses))
unfolding is_allowed some_rule
is_allowed-some_rule [] window misses h = rw h
is_allowed-some_rule (rule ∷ rules) window misses h = rw h

-- A window is allowed exactly when it is of no password manager and some rule matches it; so
-- never under an empty list. The miss count of the window goes up by one at a refusal, but not
-- for a password manager.
pub is_allowed_iff :
    (rules : List AllowRule) (window : Window) (misses : Misses)
    → let (answer, misses') = is_allowed rules window misses in
      ((answer ≡ true) ↔ ((is_always_denied window ≡ false) × Matched rules window))
      × (count_of window.app_class window.title misses'
          ≡ count_of window.app_class window.title misses
            + (if answer || is_always_denied window then 0 else 1))
is_allowed_iff rules window misses =
    let class = window.app_class in
    let title = window.title in
    elim (Bool-cases (is_always_denied window)) [
      | inl denied ↦
          rw (is_allowed-denied rules window misses denied, denied)
            ((λ e. cc, λ m. cc), omega arith)
      | inr plain ↦ elim (Bool-cases (some_rule rules window)) [
        | inl hit ↦
            rw (is_allowed-some_rule rules window misses plain, plain, hit)
              ((λ e. (refl, some_rule-Matched rules window hit), λ m. refl), omega arith)
        | inr no_rule ↦
            rw (is_allowed-some_rule rules window misses plain, plain, no_rule)
              (
                (
                  λ e. cc,
                  λ m.
                      let (before, rule, after, e, found) = m.1 in
                      absurd (
                        not_both
                          (ap (λ rs. some_rule rs window) e
                            ∙ some_rule-append before after rule window found)
                          no_rule),
                ),
                count_of-add_miss class title misses,
              )
      ]
    ]
