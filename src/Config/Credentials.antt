-- ===== src/Config/Credentials.antt =====
-- The providers with credentials: `_provider_available` and `_build_provider` of
-- `src/agent/brain/router.py`, and what they come to for the providers of the configuration.
use hyprland_agent.Prelude.{
  ◌≡◌, refl, Text, codes, text_eq, eq_of-text_eq, text_eq_refl, Bool, true, false, not, ◌&&◌,
  Option, none, some, List, [], ◌∷◌, Dict, text_key, lookup, is_some, if◌then◌else◌, Bool-cases,
  inl, inr, arith,
}
use hyprland_agent.Safety.Confirm.{member}
use hyprland_agent.Config.Providers.{BrainConfig, is_enabled}
use hyprland_agent.Config.Known.{Known}
use hyprland_agent.Config.Router.{
  ProviderConfig, providers, Brain, Choice, variable, is_empty, entry_available, provider_available,
  build_entry, build_provider,
}

abbrev keys : {V : Type 0} → Dict Text V → List Text
keys [] = []
keys ((k, v) ∷ d) = k ∷ keys d

member-contains :
    {V : Type 0} (p : Text) (d : Dict Text V)
    → member p (keys d) ≡ true
    → is_some (lookup p d) ≡ true
member-contains p [] h = h
member-contains p ((k, v) ∷ d) h = elim (Bool-cases (text_eq k p)) [
  | inl e ↦ rw e refl
  | inr e ↦ rw e (member-contains p d (ground (arith, h, e)))
]

apart : (p q : Text) → text_eq p q ≡ false → text_eq q p ≡ false
apart p q h = elim (Bool-cases (text_eq q p)) [
  | inl e ↦ absurd (cc (h, text_eq_refl q, eq_of-text_eq q p e))
  | inr e ↦ e
]

some_of : {A : Type 0} (o : Option A) → is_some o ≡ true → (a : A) × (o ≡ some a)
some_of none h = cc
some_of (some a) h = (a, refl)

other_Known :
    (p : Text) → Known p → text_eq (codes "claude") p ≡ false → member p (keys providers) ≡ true
unfolding providers
other_Known p h e = ground (arith, h, e)

entry_of :
    (p : Text)
    → Known p
    → text_eq p (codes "claude") ≡ false
    → (cfg : ProviderConfig) × (lookup p providers ≡ some cfg)
entry_of p h e =
    some_of (lookup p providers)
      (member-contains p providers (other_Known p h (apart p (codes "claude") e)))

module _ (environ : Text → Option Text) where
  -- There is a key for the provider of an entry.
  abbrev has_key : Option ProviderConfig → Bool
  has_key none = false
  has_key (some cfg) = not (is_empty (variable environ cfg.key_env))

  -- There is a key for the provider in the environment.
  abbrev pub has_credentials : Text → Bool
  has_credentials p =
      if text_eq p (codes "claude")
      then not (is_empty (variable environ (codes "ANTHROPIC_API_KEY")))
      else has_key (lookup p providers)

  abbrev pub is_usable : BrainConfig → Text → Bool
  is_usable cfg p = is_enabled cfg p && has_credentials p

  abbrev pub first_usable : BrainConfig → List Text → Option Text
  first_usable cfg [] = none
  first_usable cfg (p ∷ ps) = if is_usable cfg p then some p else first_usable cfg ps

  entry_has_key :
      (o : Option ProviderConfig) (cfg : ProviderConfig)
      → o ≡ some cfg
      → (reason : Text) × (entry_available environ o ≡ some (has_key o, reason))
  unfolding entry_available
  entry_has_key o cfg e = elim (Bool-cases (is_empty (variable environ cfg.key_env))) [
    | inl b ↦ rw e (rw b (_, refl))
    | inr b ↦ rw e (rw b (_, refl))
  ]

  pub available_Known :
      (p : Text)
      → Known p
      → (reason : Text) × (provider_available environ p ≡ some (has_credentials p, reason))
  unfolding provider_available
  available_Known p h = elim (Bool-cases (text_eq p (codes "claude"))) [
    | inl e ↦ elim (Bool-cases (is_empty (variable environ (codes "ANTHROPIC_API_KEY")))) [
      | inl b ↦ rw e (rw b (_, refl))
      | inr b ↦ rw e (rw b (_, refl))
    ]
    | inr e ↦
        let cfg = entry_of p h e in
        let reason = entry_has_key (lookup p providers) cfg.0 cfg.1 in rw e (reason.0, reason.1)
  ]

  build_entry_some :
      (p : Text) (o : Option ProviderConfig)
      → has_key o ≡ true
      → (b : Brain) × (build_entry environ p o ≡ Choice.chosen b)
  unfolding build_entry
  build_entry_some p none h = cc
  build_entry_some p (some cfg) h =
      let b : is_empty (variable environ cfg.key_env) ≡ false = ground arith in rw b (_, refl)

  -- A provider with credentials can be built.
  pub build_provider_some :
      (p : Text)
      → has_credentials p ≡ true
      → (b : Brain) × (build_provider environ p ≡ Choice.chosen b)
  unfolding build_provider
  build_provider_some p h = elim (Bool-cases (text_eq p (codes "claude"))) [
    | inl e ↦ rw e (_, refl)
    | inr e ↦ rw e (build_entry_some p (lookup p providers) (ground (arith, h, e)))
  ]
