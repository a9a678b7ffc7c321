-- ===== src/Safety/Allowlist/Tests.antt =====
-- The allowlist at concrete inputs.
use hyprland_agent.Prelude.{
  codes, ◌≡◌, ◌↔◌, ◌+◌, refl, true, false, none, some, [], ◌∷◌, List, if◌then◌else◌, ◌||◌,
}
use hyprland_agent.Schemas.{Window}
use hyprland_agent.Safety.Glob.{fnmatch}
use hyprland_agent.Safety.Confirm.{is_destructive_dispatch}
use hyprland_agent.Safety.Sanitize.{strip}
use hyprland_agent.Safety.Allowlist.{
  AllowRule, Matched, is_always_denied, is_allowed, some_rule, count_of, is_allowed_iff,
}

brackets : fnmatch (codes "foot-7x") (codes "f??t-[0-9][!a-w]*") ≡ true
unfolding fnmatch
brackets = refl

unclosed : fnmatch (codes "a[b") (codes "a[b") ≡ true
unfolding fnmatch
unclosed = refl

kills : is_destructive_dispatch (codes " KillActive now") ≡ true
unfolding is_destructive_dispatch strip
kills = refl

abbrev terminal : Window
terminal = record {
  address = codes "0x1";
  title = codes "Shell";
  app_class = codes "Foot";
  pid = 7;
}

abbrev rules : List AllowRule
rules = record { class = some (codes "FO*"); title = none } ∷ []

allowed : is_allowed rules terminal [] ≡ (true, [])
unfolding is_allowed some_rule fnmatch is_always_denied
allowed = refl

is_allowed_iff_example :
    (((is_allowed rules terminal []).0 ≡ true)
      ↔ ((is_always_denied terminal ≡ false) × Matched rules terminal))
    × (count_of (codes "Foot") (codes "Shell") (is_allowed rules terminal []).1
        ≡ 0 + (if (is_allowed rules terminal []).0 || is_always_denied terminal then 0 else 1))
is_allowed_iff_example = is_allowed_iff rules terminal []
