-- ===== src/Safety/RateLimit/Tests.antt =====
-- Runs of the limiter at concrete inputs.
use hyprland_agent.Prelude.{
  ℕ, codes, ◌≡◌, ◌≤◌, refl, true, false, none, some, [], ◌∷◌, count_if, arith, text_key,
}
use hyprland_agent.Safety.RateLimit.{
  RateLimiter, RateLimitConfig, default_limits, build_limits, init, from_config, window, evict,
  check, reconfigure, reset,
}
use hyprland_agent.Safety.RateLimit.Window.{stamps}
use hyprland_agent.Safety.RateLimit.Refines.{
  Schedule, run, ideal_run, granted, in_window, run-ideal, granted-bound,
}

-- Two actions of a kind in a second.
abbrev limiter : RateLimiter
limiter = record { limits = (codes "key", (2, 1)) ∷ []; buckets = [] }

abbrev half : ℕ
half = 500000000

abbrev calls : Schedule
calls =
    (codes "key", 1)
    ∷ (codes "key", 2)
    ∷ (codes "key", half)
    ∷ (codes "click", half)
    ∷ (codes "key", 1000000001)
    ∷ []

answers : run limiter calls ≡ true ∷ true ∷ false ∷ true ∷ true ∷ []
unfolding check window evict
answers = refl

abbrev config : RateLimitConfig
config = record {
  gui_actions_per_minute = 5;
  terminal_commands_per_minute = 1;
  other_actions_per_minute = 7;
}

configured : window (from_config (some config)) (codes "notify") ≡ (7, 60)
unfolding window from_config build_limits
configured = refl

by_default : window (init none) (codes "terminal_command") ≡ (10, 60)
unfolding window init default_limits
by_default = refl

emptied : (reset (check limiter (codes "key") 3).0).buckets ≡ []
unfolding reset
emptied = refl

reconfigured : (reconfigure limiter config).buckets ≡ []
unfolding reconfigure
reconfigured = refl

run-ideal_example : run limiter calls ≡ ideal_run (window limiter) [] calls
run-ideal_example = run-ideal limiter calls refl (omega arith)

granted-bound_example :
    count_if
      (in_window half (window limiter (codes "key")).1)
      (stamps (codes "key") (granted limiter [] calls))
    ≤ (window limiter (codes "key")).0
granted-bound_example = granted-bound limiter calls (codes "key") half refl (omega arith)
