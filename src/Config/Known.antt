-- ===== src/Config/Known.antt =====
-- What `src/agent/config.py` accepts: what holds of a result wherever there is one, and the
-- providers of the configuration.
use hyprland_agent.Prelude.{
  ◌≡◌, ◌≢◌, ◌⊎◌, refl, subst, Text, codes, Bool, true, false, Option, none, some, List, [], ◌∷◌,
  All, not, ◌&&◌, text_eq, lower, text_eq_refl, eq_of-text_eq, if_both, Bool-cases, inl, inr, arith,
}
use hyprland_agent.Safety.Confirm.{member}
use hyprland_agent.Config.Yaml.{Yaml, Items, done, item, Entries, Result, ok, err, ◌>>=◌, get}
use hyprland_agent.Config.Providers.{
  known_providers, known, canonical, normalize_provider, normalize_all, from_keys, read_order,
  nonempty, read_default, BrainConfig, brain_config,
}

-- The result, where there is one, satisfies the predicate.
unfoldable pub Ensures : {A : Type 0} → (A → Type 0) → Result A → Type 0
Ensures P (ok a) = P a
Ensures P (err e) = Unit

module _ {A : Type 0} (P : A → Type 0) where
  pub ensured : (a : A) → P a → Ensures P (ok a)
  unfolding Ensures
  ensured a h = h

  pub Ensures-ok : (r : Result A) (a : A) → Ensures P r → r ≡ ok a → P a
  unfolding Ensures
  Ensures-ok r a h e = subst (Ensures P) e h

module _ {A : Type 0} (P Q : A → Type 0) (f : (a : A) → P a → Q a) where
  pub Ensures-map : (r : Result A) → Ensures P r → Ensures Q r
  unfolding Ensures
  Ensures-map (ok a) h = f a h
  Ensures-map (err e) h = tt

module _ {A : Type 0} where
  pub any-Ensures : (r : Result A) → Ensures (λ a. Unit) r
  unfolding Ensures
  any-Ensures (ok a) = tt
  any-Ensures (err e) = tt

module _ {A B : Type 0} (P : A → Type 0) (Q : B → Type 0) where
  pub bind-Ensures :
      (m : Result A) (f : A → Result B)
      → Ensures P m
      → ((a : A) → P a → Ensures Q (f a))
      → Ensures Q (m >>= f)
  unfolding Ensures ◌>>=◌
  bind-Ensures (ok a) f h k = k a h
  bind-Ensures (err e) f h k = tt

abbrev pub Known : Text → Type 0
Known p = member p known_providers ≡ true

known-Known : (p : Text) → Ensures Known (known p)
unfolding known Ensures
known-Known p = elim (Bool-cases (member p known_providers)) [ inl e ↦ rw e e | inr e ↦ rw e tt ]

pub normalize_provider-Known : (name : Yaml) → Ensures Known (normalize_provider name)
unfolding normalize_provider
normalize_provider-Known name =
    bind-Ensures _ _ _ _ (any-Ensures _) (λ t u. known-Known (canonical t))

normalize_all-Known : (xs : Items) → Ensures (All Known) (normalize_all xs)
unfolding normalize_all
normalize_all-Known done = ensured _ _ tt
normalize_all-Known (item v more) =
    bind-Ensures _ _ _ _ (normalize_provider-Known v)
      (λ p h. bind-Ensures _ _ _ _ (normalize_all-Known more) (λ ps hs. ensured _ _ (h, hs)))

read_order-Known : (o : Option Yaml) → Ensures (All Known) (read_order o)
unfolding read_order Ensures
read_order-Known none = (refl, (refl, (refl, (refl, (refl, (refl, (refl, tt)))))))
read_order-Known (some (Yaml.list xs)) = normalize_all-Known xs
read_order-Known (some (Yaml.null)) = tt
read_order-Known (some (Yaml.flag b)) = tt
read_order-Known (some (Yaml.whole n)) = tt
read_order-Known (some (Yaml.real n)) = tt
read_order-Known (some (Yaml.text t)) = tt
read_order-Known (some (Yaml.mapping m)) = tt

-- No text stands twice in the list.
abbrev pub distinct : List Text → Bool
distinct [] = true
distinct (p ∷ ps) = not (member p ps) && distinct ps

abbrev Unseen : List Text → List Text → Type 0
Unseen seen ps = All (λ p. member p seen ≡ false) ps

from_keys-Known : (seen ps : List Text) → All Known ps → All Known (from_keys seen ps)
unfolding from_keys
from_keys-Known seen [] h = tt
from_keys-Known seen (p ∷ ps) h =
    if_both (All Known) (member p seen) _ _ (from_keys-Known seen ps h.1)
      (h.0, from_keys-Known (p ∷ seen) ps h.1)

Unseen-later : (p : Text) (seen ps : List Text) → Unseen (p ∷ seen) ps → Unseen seen ps
Unseen-later p seen [] h = tt
Unseen-later p seen (q ∷ qs) h = (ground (arith, h.0), Unseen-later p seen qs h.1)

text_eq_apart : (p q : Text) → text_eq q p ≡ false → text_eq p q ≡ false
text_eq_apart p q h = elim (Bool-cases (text_eq p q)) [
  | inl e ↦ absurd (cc (h, text_eq_refl q, eq_of-text_eq p q e))
  | inr e ↦ e
]

Unseen-first : (p : Text) (seen ps : List Text) → Unseen (p ∷ seen) ps → member p ps ≡ false
Unseen-first p seen [] h = refl
Unseen-first p seen (q ∷ qs) h =
    let apart = text_eq_apart q p (ground (arith, h.0)) in rw apart (Unseen-first p seen qs h.1)

from_keys-Unseen : (seen ps : List Text) → Unseen seen (from_keys seen ps)
unfolding from_keys
from_keys-Unseen seen [] = tt
from_keys-Unseen seen (p ∷ ps) = elim (Bool-cases (member p seen)) [
  | inl e ↦ rw e (from_keys-Unseen seen ps)
  | inr e ↦ rw e (e, Unseen-later p seen _ (from_keys-Unseen (p ∷ seen) ps))
]

from_keys-distinct : (seen ps : List Text) → distinct (from_keys seen ps) ≡ true
unfolding from_keys
from_keys-distinct seen [] = refl
from_keys-distinct seen (p ∷ ps) =
    if_both (λ qs. distinct qs ≡ true) (member p seen) _ _ (from_keys-distinct seen ps)
      (rw (Unseen-first p seen _ (from_keys-Unseen (p ∷ seen) ps))
        (from_keys-distinct (p ∷ seen) ps))

abbrev pub auto : Text
auto = codes "auto"

-- The default is `auto` or a provider; the order has a provider, only providers, and none twice.
abbrev pub WellFormed : BrainConfig → Type 0
WellFormed c =
    ((c.default ≡ auto) ⊎ Known c.default)
    × (c.auto_order ≢ [])
    × All Known c.auto_order
    × (distinct c.auto_order ≡ true)

read_default-Known : (t : Text) → Ensures (λ d. (d ≡ auto) ⊎ Known d) (read_default t)
unfolding read_default
read_default-Known t = elim (Bool-cases (text_eq t auto)) [
  | inl e ↦ rw e (ensured _ _ (inl (eq_of-text_eq t auto e)))
  | inr e ↦ rw e (Ensures-map _ _ (λ d h. inr h) _ (normalize_provider-Known (Yaml.text t)))
]

abbrev Order : List Text → Type 0
Order ps = (ps ≢ []) × All Known ps × (distinct ps ≡ true)

nonempty-Order : (ps : List Text) → All Known ps → distinct ps ≡ true → Ensures Order (nonempty ps)
unfolding nonempty Ensures
nonempty-Order [] h d = tt
nonempty-Order (p ∷ ps) h d = (cc, h, d)

pub brain_config-WellFormed : (top : Entries) → Ensures WellFormed (brain_config top)
unfolding brain_config
brain_config-WellFormed top = bind-Ensures _ _ _ _ (any-Ensures _) (λ raw u.
    bind-Ensures _ _ _ _ (any-Ensures _) (λ t u1.
      bind-Ensures _ _ _ _ (read_default-Known (lower t)) (λ default hd.
        bind-Ensures _ _ _ _ (read_order-Known (get (codes "auto_order") raw)) (λ names hn.
          bind-Ensures _ _ _ _
            (nonempty-Order (from_keys [] names) (from_keys-Known [] names hn)
              (from_keys-distinct [] names))
            (λ order ho. bind-Ensures _ _ _ _ (any-Ensures _) (λ given u2.
              bind-Ensures _ _ _ _ (any-Ensures _)
                (λ providers u3. ensured _ _ (hd, ho.0, ho.1, ho.2))))))))
