-- ===== src/Config/Chosen.antt =====
-- Which brain `get_brain` of `src/agent/brain/router.py` returns.
use hyprland_agent.Prelude.{
  ℕ, ◌+◌, ◌≡◌, ◌⊎◌, refl, sym, subst, ◌∙◌, Text, codes, text_eq, Bool, true, false, ◌&&◌, Option,
  none, some, List, [], ◌∷◌, ◌++◌, length, length-append, All, text_key, Bool-cases, inl, inr,
  arith,
}
use hyprland_agent.Safety.Confirm.{member}
use hyprland_agent.Config.Yaml.{Yaml, Result, ok, Conversions}
use hyprland_agent.Config.Providers.{known_providers, canonical, BrainConfig, is_enabled}
use hyprland_agent.Config.Known.{Known}
use hyprland_agent.Config.Load.{AgentConfig, load_config}
use hyprland_agent.Config.Bounds.{load_config-Accepted}
use hyprland_agent.Config.Router.{
  Brain, Refusal, Choice, build_provider, when_available, choose_auto, choose_named, choice_of,
  choose, get_brain,
}
use hyprland_agent.Config.Credentials.{
  has_credentials, is_usable, first_usable, available_Known, build_provider_some,
}

both_true : (a b : Bool) → a ≡ true → b ≡ true → a && b ≡ true
both_true a b ha hb = ground arith

and_right : (a b : Bool) → a && b ≡ true → b ≡ true
and_right a b h = ground arith

module _ (environ : Text → Option Text) where
  module _ (cfg : BrainConfig) where
    usable_next :
        (checked : List Text) (p : Text) (ps : List Text)
        → Known p
        → is_usable environ cfg p ≡ true
        → choose_auto environ cfg checked (p ∷ ps) ≡ build_provider environ p
    unfolding choose_auto when_available
    usable_next checked p ps known h =
        let enabled : is_enabled cfg p ≡ true = ground arith in
        let has : has_credentials environ p ≡ true = ground arith in
        rw enabled (rw (available_Known environ p known).1 (rw has refl))

    unusable_next :
        (checked : List Text) (p : Text) (ps : List Text)
        → Known p
        → is_usable environ cfg p ≡ false
        → (why : Text) × (choose_auto environ cfg checked (p ∷ ps)
            ≡ choose_auto environ cfg (checked ++ (why ∷ [])) ps)
    unfolding choose_auto when_available
    unusable_next checked p ps known h = elim (Bool-cases (is_enabled cfg p)) [
      | inl enabled ↦
          let has : has_credentials environ p ≡ false = ground (arith, h, enabled) in
          rw enabled (rw (available_Known environ p known).1 (rw has (_, refl)))
      | inr disabled ↦ rw disabled (_, refl)
    ]

    -- What the choice among providers comes to: the first that is usable, or a reason for each.
    abbrev pub Picks : List Text → ℕ → Choice → Type 0
    Picks ps n r =
        ((p : Text) × (b : Brain) × (first_usable environ cfg ps ≡ some p)
          × (build_provider environ p ≡ Choice.chosen b)
          × (r ≡ Choice.chosen b))
        ⊎ ((first_usable environ cfg ps ≡ none)
            × ((reasons : List Text) × (r ≡ Choice.refused (Refusal.none_available reasons))
                × (length reasons ≡ n)))

    choose_auto-Picks :
        (checked ps : List Text) (n : ℕ)
        → All Known ps
        → length checked + length ps ≡ n
        → Picks ps n (choose_auto environ cfg checked ps)
    unfolding choose_auto
    choose_auto-Picks checked [] n h e = inr (refl, (checked, refl, omega (arith, e)))
    choose_auto-Picks checked (p ∷ ps) n h e = elim (Bool-cases (is_usable environ cfg p)) [
      | inl u ↦
          let built =
            build_provider_some environ p
              (and_right (is_enabled cfg p) (has_credentials environ p) u) in
          rw u (rw (usable_next checked p ps h.0 u) (inl (p, built.0, refl, built.1, built.1)))
      | inr u ↦
          let next = unusable_next checked p ps h.0 u in
          rw u (
            rw next.1 (
              choose_auto-Picks (checked ++ (next.0 ∷ [])) ps n h.1
                (omega (arith, length-append checked (next.0 ∷ [])))))
    ]

  -- For an accepted configuration whose order of providers is to decide: the brain is that of
  -- the first provider of the order that is enabled and has credentials; where there is none, the
  -- selection is refused with one reason for each provider of the order.
  pub get_brain-Picks :
      (conv : Conversions) (file : Option (Result Yaml)) (override : Option Text) (c : AgentConfig)
      → load_config conv file ≡ ok c
      → text_eq (choice_of environ c.brain override) (codes "auto") ≡ true
      → Picks c.brain c.brain.auto_order
          (length c.brain.auto_order)
          (get_brain environ (load_config conv file) override)
  unfolding get_brain choose
  get_brain-Picks conv file override c loaded auto =
      let accepted = load_config-Accepted conv file c loaded in
      rw loaded (
        rw auto (
          choose_auto-Picks c.brain [] c.brain.auto_order (length c.brain.auto_order) accepted.0.2
            (omega arith)))

  -- A provider of the table that is enabled and has credentials, and its brain.
  abbrev pub Selected : BrainConfig → Choice → Type 0
  Selected cfg r =
      (p : Text) × (Known p × (is_usable environ cfg p ≡ true)) × (build_provider environ p ≡ r)

  first_usable-some :
      (cfg : BrainConfig) (ps : List Text) (p : Text)
      → All Known ps
      → first_usable environ cfg ps ≡ some p
      → Known p × (is_usable environ cfg p ≡ true)
  first_usable-some cfg [] p h e = cc
  first_usable-some cfg (q ∷ qs) p h e = elim (Bool-cases (is_usable environ cfg q)) [
    | inl u ↦
        let same : q ≡ p = ground (arith, e, u) in
        subst (λ x. Known x × (is_usable environ cfg x ≡ true)) same (h.0, u)
    | inr u ↦
        let later : first_usable environ cfg qs ≡ some p = ground (arith, e, u) in
        first_usable-some cfg qs p h.1 later
  ]

  picked-Selected :
      (cfg : BrainConfig) (ps : List Text) (n : ℕ) (r : Choice) (b : Brain)
      → All Known ps
      → Picks cfg ps n r
      → r ≡ Choice.chosen b
      → Selected cfg r
  picked-Selected cfg ps n r b known (inl (p, b', first, built, e)) h =
      (p, first_usable-some cfg ps p known first, built ∙ sym e)
  picked-Selected cfg ps n r b known (inr (no_one, (reasons, e, size))) h = absurd (cc (e, h))

  named_unknown :
      (cfg : BrainConfig) (name : Text)
      → member (canonical name) known_providers ≡ false
      → choose_named environ cfg name ≡ Choice.refused (Refusal.unknown name)
  unfolding choose_named
  named_unknown cfg name e = rw e

  named_disabled :
      (cfg : BrainConfig) (name : Text)
      → Known (canonical name)
      → is_enabled cfg (canonical name) ≡ false
      → choose_named environ cfg name ≡ Choice.refused (Refusal.disabled (canonical name))
  unfolding choose_named
  named_disabled cfg name k e = rw k (rw e)

  named_unavailable :
      (cfg : BrainConfig) (name : Text)
      → Known (canonical name)
      → is_enabled cfg (canonical name) ≡ true
      → has_credentials environ (canonical name) ≡ false
      → choose_named environ cfg name ≡ Choice.refused (Refusal.unavailable (canonical name))
  unfolding choose_named when_available
  named_unavailable cfg name k e c =
      rw k (rw e (rw (available_Known environ (canonical name) k).1 (rw c)))

  named_usable :
      (cfg : BrainConfig) (name : Text)
      → Known (canonical name)
      → is_enabled cfg (canonical name) ≡ true
      → has_credentials environ (canonical name) ≡ true
      → choose_named environ cfg name ≡ build_provider environ (canonical name)
  unfolding choose_named when_available
  named_usable cfg name k e c =
      rw k (rw e (rw (available_Known environ (canonical name) k).1 (rw c)))

  named-Selected :
      (cfg : BrainConfig) (name : Text) (b : Brain)
      → choose_named environ cfg name ≡ Choice.chosen b
      → Selected cfg (choose_named environ cfg name)
  named-Selected cfg name b h = elim (Bool-cases (member (canonical name) known_providers)) [
    | inr e ↦ absurd (cc (named_unknown cfg name e, h))
    | inl k ↦ elim (Bool-cases (is_enabled cfg (canonical name))) [
      | inr e ↦ absurd (cc (named_disabled cfg name k e, h))
      | inl e ↦ elim (Bool-cases (has_credentials environ (canonical name))) [
        | inr c ↦ absurd (cc (named_unavailable cfg name k e c, h))
        | inl c ↦ (canonical name, (k, both_true _ _ e c), sym (named_usable cfg name k e c))
      ]
    ]
  ]

  choose-Selected :
      (cfg : BrainConfig) (name : Text) (b : Brain)
      → All Known cfg.auto_order
      → choose environ cfg name ≡ Choice.chosen b
      → Selected cfg (Choice.chosen b)
  unfolding choose
  choose-Selected cfg name b known got = elim (Bool-cases (text_eq name (codes "auto"))) [
    | inl e ↦
        let r : choose environ cfg name ≡ choose_auto environ cfg [] cfg.auto_order = rw e in
        let picks =
          choose_auto-Picks cfg [] cfg.auto_order (length cfg.auto_order) known (omega arith) in
        subst (Selected cfg) (sym r ∙ got)
          (picked-Selected cfg cfg.auto_order _ _ b known picks (sym r ∙ got))
    | inr e ↦
        let r : choose environ cfg name ≡ choose_named environ cfg name = rw e in
        subst (Selected cfg) (sym r ∙ got) (named-Selected cfg name b (sym r ∙ got))
  ]

  -- For an accepted configuration, whatever is asked for: a brain that is returned is the brain of a
  -- known provider that the configuration has enabled and the environment has credentials for.
  pub get_brain-Selected :
      (conv : Conversions) (file : Option (Result Yaml)) (override : Option Text) (c : AgentConfig)
      (b : Brain)
      → load_config conv file ≡ ok c
      → get_brain environ (load_config conv file) override ≡ Choice.chosen b
      → Selected c.brain (Choice.chosen b)
  unfolding get_brain
  get_brain-Selected conv file override c b loaded got =
      let accepted = load_config-Accepted conv file c loaded in
      let step : get_brain environ (load_config conv file) override
          ≡ choose environ c.brain (choice_of environ c.brain override) =
        rw loaded in
      choose-Selected c.brain (choice_of environ c.brain override) b accepted.0.2 (sym step ∙ got)
