-- ===== src/Config/Bounds.antt =====
-- What `src/agent/config.py` accepts: the bounds on its numbers.
use hyprland_agent.Prelude.{
  ℕ, ◌≤◌, ◌≡◌, refl, ◌⊎◌, Text, codes, Option, ltb, Bool-cases, inl, inr, arith,
}
use hyprland_agent.Schemas.{Number}
use hyprland_agent.Brain.Claude.{ContextConfig}
use hyprland_agent.Config.Yaml.{Float, Yaml, Entries, Result, ok, Conversions}
use hyprland_agent.Config.Known.{
  Ensures, ensured, bind-Ensures, any-Ensures, Ensures-ok, WellFormed, brain_config-WellFormed,
}
use hyprland_agent.Config.Load.{AgentConfig, load_config}
use hyprland_agent.Config.Sections.{
  at_least, as_share, clamp_int, MemoryConfig, DecayConfig, LearningConfig, TerminalConfig,
  memory_config, decay_config, learning_config, terminal_config, context_config,
}

at_least-Ensures : (lo : ℕ) (n : Number) → Ensures (λ k. lo ≤ k) (at_least lo n)
unfolding at_least Ensures
at_least-Ensures lo (Number.nonneg n) = elim (Bool-cases (ltb n lo)) [
  | inl e ↦ rw e tt
  | inr e ↦ rw e (ground arith)
]
at_least-Ensures lo (Number.neg n) = tt

-- No number, or one from 0 to 1, in billionths.
abbrev pub IsShare : Float → Type 0
IsShare share =
    (share ≡ Float.nan) ⊎ ((n : ℕ) × (share ≡ Float.finite (Number.nonneg n)) × (n ≤ 1000000000))

as_share-Ensures : (share : Float) → Ensures IsShare (as_share share)
unfolding as_share Ensures
as_share-Ensures (Float.nan) = inl refl
as_share-Ensures (Float.infinite below) = tt
as_share-Ensures (Float.finite (Number.nonneg n)) = elim (Bool-cases (ltb 1000000000 n)) [
  | inl e ↦ rw e tt
  | inr e ↦ rw e (inr (n, refl, ground arith))
]
as_share-Ensures (Float.finite (Number.neg n)) = tt

module _ (conv : Conversions) where
  clamp_int-Ensures :
      (raw : Entries) (key : Text) (default lo : ℕ)
      → Ensures (λ k. lo ≤ k) (clamp_int conv raw key default lo)
  unfolding clamp_int
  clamp_int-Ensures raw key default lo =
      bind-Ensures _ _ _ _ (any-Ensures _) (λ n u. at_least-Ensures lo n)

  memory_config-Ensures :
      (top : Entries) → Ensures (λ (c : MemoryConfig). 1 ≤ c.recall_k) (memory_config conv top)
  unfolding memory_config
  memory_config-Ensures top = bind-Ensures _ _ _ _ (any-Ensures _) (λ raw u.
      bind-Ensures _ _ _ _ (clamp_int-Ensures raw (codes "recall_k") 3 1) (λ k h. ensured _ _ h))

  abbrev DecayBounds : DecayConfig → Type 0
  DecayBounds c = (1 ≤ c.half_life_days) × IsShare c.prune_threshold × (1 ≤ c.cleanup_interval_s)

  decay_config-Ensures : (parent : Entries) → Ensures DecayBounds (decay_config conv parent)
  unfolding decay_config
  decay_config-Ensures parent = bind-Ensures _ _ _ _ (any-Ensures _) (λ raw u.
      bind-Ensures _ _ _ _ (any-Ensures _) (λ prune u1.
        bind-Ensures _ _ _ _ (as_share-Ensures prune) (λ share hs.
          bind-Ensures _ _ _ _ (clamp_int-Ensures raw (codes "half_life_days") 90 1) (λ days hd.
            bind-Ensures _ _ _ _ (clamp_int-Ensures raw (codes "cleanup_interval_s") 3600 1)
              (λ interval hi. ensured _ _ (hd, hs, hi))))))

  abbrev LearningBounds : LearningConfig → Type 0
  LearningBounds c = (1 ≤ c.mining_interval_s) × DecayBounds c.decay

  learning_config-Ensures : (top : Entries) → Ensures LearningBounds (learning_config conv top)
  unfolding learning_config
  learning_config-Ensures top = bind-Ensures _ _ _ _ (any-Ensures _) (λ raw u.
      bind-Ensures _ _ _ _ (clamp_int-Ensures raw (codes "mining_interval_s") 300 1) (λ interval hi.
        bind-Ensures _ _ _ _ (decay_config-Ensures raw) (λ decay hd. ensured _ _ (hi, hd))))

  terminal_config-Ensures :
      (top : Entries)
      → Ensures (λ (c : TerminalConfig). 1 ≤ c.capture_cap_kb) (terminal_config conv top)
  unfolding terminal_config
  terminal_config-Ensures top = bind-Ensures _ _ _ _ (any-Ensures _) (λ raw u.
      bind-Ensures _ _ _ _ (clamp_int-Ensures raw (codes "capture_cap_kb") 64 1)
        (λ cap h. ensured _ _ h))

  context_config-Ensures :
      (top : Entries)
      → Ensures (λ (c : ContextConfig). 1 ≤ c.budget_tokens) (context_config conv top)
  unfolding context_config
  context_config-Ensures top = bind-Ensures _ _ _ _ (any-Ensures _) (λ raw u.
      bind-Ensures _ _ _ _ (clamp_int-Ensures raw (codes "budget_tokens") 160000 1)
        (λ budget h. bind-Ensures _ _ _ _ (any-Ensures _) (λ rounds u1. ensured _ _ h)))

  -- The numbers of an accepted configuration are in their ranges and its providers are well formed.
  abbrev pub Accepted : AgentConfig → Type 0
  Accepted c =
      WellFormed c.brain
      × (1 ≤ c.memory.recall_k)
      × LearningBounds c.learning
      × (1 ≤ c.terminal.capture_cap_kb)
      × (1 ≤ c.context.budget_tokens)

  load_config-Ensures : (file : Option (Result Yaml)) → Ensures Accepted (load_config conv file)
  unfolding load_config
  load_config-Ensures file = bind-Ensures _ _ _ _ (any-Ensures _) (λ top u.
      bind-Ensures _ _ _ _ (any-Ensures _) (λ audit u1.
        bind-Ensures _ _ _ _ (brain_config-WellFormed top) (λ brain hb.
          bind-Ensures _ _ _ _ (memory_config-Ensures top) (λ memory hm.
            bind-Ensures _ _ _ _ (learning_config-Ensures top) (λ learning hl.
              bind-Ensures _ _ _ _ (any-Ensures _) (λ rates u2.
                bind-Ensures _ _ _ _ (terminal_config-Ensures top) (λ terminal ht.
                  bind-Ensures _ _ _ _ (any-Ensures _) (λ integrations u3.
                    bind-Ensures _ _ _ _ (context_config-Ensures top)
                      (λ context hc. ensured _ _ (hb, hm, hl, ht, hc))))))))))

  -- Whatever the file holds and however the conversions act: a configuration that is accepted has a
  -- default that is `auto` or a provider, an order of providers that is not empty and names each once,
  -- at least one recalled memory, positive mining and cleaning intervals, a half-life of a day or more, a
  -- pruning threshold that is a NaN or from 0 to 1, a capture limit of at least 1 KB and a positive token budget.
  pub load_config-Accepted :
      (file : Option (Result Yaml)) (c : AgentConfig) → load_config conv file ≡ ok c → Accepted c
  load_config-Accepted file c e =
      Ensures-ok Accepted (load_config conv file) c (load_config-Ensures file) e
