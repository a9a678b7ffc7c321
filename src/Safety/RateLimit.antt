-- ===== src/Safety/RateLimit.antt =====
-- `RateLimiter` of `src/agent/safety/rate_limit.py`: a sliding window for each kind of action.
-- The clock is monotonic and read in nanoseconds; a window is configured in seconds.
pub mod Window
pub mod Keeps
pub mod Refines
mod Tests
use hyprland_agent.Prelude.{
  ℕ, Text, codes, ◌+◌, ◌*◌, Bool, true, false, Option, none, some, List, [], ◌∷◌, ◌++◌, Dict,
  text_key, lookup, insert, contains, length, leb, if◌then◌else◌,
}
use hyprland_agent.Schemas.{ActionKind, kind_value}

-- (max_actions, window_seconds)
abbrev pub Limit : Type 0
Limit = ℕ × ℕ

pub record RateLimitConfig : Type 0 where
  pub gui_actions_per_minute : ℕ
  pub terminal_commands_per_minute : ℕ
  pub other_actions_per_minute : ℕ

pub record RateLimiter : Type 0 where
  pub limits : Dict Text Limit
  pub buckets : Dict Text (List ℕ)

abbrev pub gui_kinds : List ActionKind
gui_kinds =
    ActionKind.type_text ∷ ActionKind.key ∷ ActionKind.mouse_move ∷ ActionKind.click
    ∷ ActionKind.scroll ∷ []

-- `limits[kind] = limit` for each kind of a list.
abbrev pub assign_all : List ActionKind → Limit → Dict Text Limit → Dict Text Limit
assign_all [] limit d = d
assign_all (k ∷ ks) limit d = assign_all ks limit (insert (kind_value k) limit d)

unfoldable pub default_limits : Dict Text Limit
default_limits =
    insert (kind_value ActionKind.terminal_command) (10, 60) (assign_all gui_kinds (30, 60) [])

abbrev pub fallback_limit : Limit
fallback_limit = (60, 60)

-- `limits.setdefault(key, limit)`
abbrev pub set_default : Text → Limit → Dict Text Limit → Dict Text Limit
set_default k limit d = if contains k d then d else insert k limit d

unfoldable pub build_limits : Option RateLimitConfig → Dict Text Limit
build_limits none = default_limits
build_limits (some cfg) =
    set_default (codes "other") (cfg.other_actions_per_minute, 60)
      (insert (kind_value ActionKind.terminal_command) (cfg.terminal_commands_per_minute, 60)
        (assign_all gui_kinds (cfg.gui_actions_per_minute, 60) []))

-- `limits or _DEFAULT_LIMITS`: an empty dict counts as absent.
unfoldable pub init : Option (Dict Text Limit) → RateLimiter
init none = record { limits = default_limits; buckets = [] }
init (some []) = record { limits = default_limits; buckets = [] }
init (some (entry ∷ limits)) = record { limits = entry ∷ limits; buckets = [] }

unfoldable pub from_config : Option RateLimitConfig → RateLimiter
unfolding init
from_config cfg = init (some (build_limits cfg))

-- `self._limits.get(kind)`, then the entry for "other", then the fallback.
unfoldable pub window : RateLimiter → Text → Limit
window r kind = elim (lookup kind r.limits) [
  | some limit ↦ limit
  | none ↦ elim (lookup (codes "other") r.limits) [ some limit ↦ limit | none ↦ fallback_limit ]
]

abbrev pub second : ℕ
second = 1000000000

-- `stamp <= now - window_s`, with the subtraction moved to the other side.
abbrev pub is_expired : ℕ → ℕ → ℕ → Bool
is_expired now window_s stamp = leb (stamp + window_s * second) now

-- `while bucket and bucket[0] <= cutoff: bucket.popleft()`
unfoldable pub evict : ℕ → ℕ → List ℕ → List ℕ
evict now window_s [] = []
evict now window_s (stamp ∷ bucket) =
    let rest = evict now window_s bucket in
    if is_expired now window_s stamp then rest else stamp ∷ bucket

abbrev pub bucket_of : RateLimiter → Text → List ℕ
bucket_of r kind = elim (lookup kind r.buckets) [ some bucket ↦ bucket | none ↦ [] ]

-- The bucket is changed in place, so an eviction stays when the action is refused.
unfoldable pub check : RateLimiter → Text → ℕ → RateLimiter × Bool
check r kind now =
    let (max_actions, window_s) = window r kind in
    let bucket = evict now window_s (bucket_of r kind) in
    if leb max_actions (length bucket)
    then (record r { buckets = insert kind bucket r.buckets }, false)
    else (record r { buckets = insert kind (bucket ++ now ∷ []) r.buckets }, true)

unfoldable pub reconfigure : RateLimiter → RateLimitConfig → RateLimiter
reconfigure r cfg = record { limits = build_limits (some cfg); buckets = [] }

unfoldable pub reset : RateLimiter → RateLimiter
reset r = record r { buckets = [] }
