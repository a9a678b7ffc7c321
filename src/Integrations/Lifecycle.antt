-- ===== src/Integrations/Lifecycle.antt =====
-- What `IntegrationRegistry` of `src/agent/integrations/__init__.py` holds after loading.
use hyprland_agent.Prelude.{
  Text, ◌≡◌, refl, Bool, true, false, ◌&&◌, Option, none, some, List, [], ◌∷◌, ◌++◌, All,
  All-append, Bool-cases, inl, inr, if◌then◌else◌,
}
use hyprland_agent.Schemas.{Number}
use hyprland_agent.Orchestrator.Exec.{Reply}
use hyprland_agent.Integrations.{
  Integration, EntryPoint, Registry, after_setup, setup_one, versions_ok, load_one, is_wanted, load,
}

module _ (to_int : Text → Option Number) (api_version : Text) where
  -- It was set up, and its capabilities are of the major version of the daemon.
  abbrev pub IsReady : Integration → Type 0
  IsReady integ =
      (integ.setup ≡ Reply.ok tt) × (versions_ok to_int api_version integ.capabilities ≡ true)

  abbrev AllReady : Registry → Type 0
  AllReady r = All IsReady r.integrations

  after_setup-AllReady :
      (integ : Integration) (r : Registry) (answer : Reply Unit)
      → integ.setup ≡ answer
      → versions_ok to_int api_version integ.capabilities ≡ true
      → AllReady r
      → AllReady (after_setup integ r answer)
  after_setup-AllReady integ r (Reply.ok u) e v h =
      All-append IsReady r.integrations (integ ∷ []) h ((e, v), tt)
  after_setup-AllReady integ r (Reply.failed x) e v h = h

  load_one-AllReady :
      (name : Text) (r : Registry) (o : Option Integration)
      → AllReady r
      → AllReady (load_one to_int api_version name r o)
  unfolding load_one setup_one
  load_one-AllReady name r none h = h
  load_one-AllReady name r (some integ) h =
      elim (Bool-cases (versions_ok to_int api_version integ.capabilities)) [
        | inl v ↦ rw v (after_setup-AllReady integ r integ.setup refl v h)
        | inr v ↦ rw v h
      ]

  -- Every integration that the registry holds after loading has been set up without an exception
  -- and has capabilities of the major version of the daemon only.
  pub load-AllReady :
      (r : Registry) (enabled : Option (List Text)) (eps : List EntryPoint)
      → AllReady r
      → AllReady (load to_int api_version r enabled eps)
  unfolding load
  load-AllReady r enabled [] h = h
  load-AllReady r enabled (ep ∷ eps) h =
      elim (Bool-cases (is_wanted to_int api_version enabled ep.name)) [
        | inl w ↦ rw w (
            load-AllReady (load_one to_int api_version ep.name r ep.loaded) enabled eps
              (load_one-AllReady ep.name r ep.loaded h))
        | inr w ↦ rw w (load-AllReady r enabled eps h)
      ]

  abbrev is_done : Reply Unit → Bool
  is_done (Reply.ok u) = true
  is_done (Reply.failed e) = false

  -- The integration of an entry point, if it loads, fits the version and can be set up.
  abbrev pub usable : Option Integration → List Integration
  usable none = []
  usable (some integ) =
      if versions_ok to_int api_version integ.capabilities && is_done integ.setup
      then integ ∷ []
      else []

  -- The usable integrations among the entry points that are wanted, in their order.
  abbrev pub all_usable : Option (List Text) → List EntryPoint → List Integration
  all_usable enabled [] = []
  all_usable enabled (ep ∷ eps) =
      let rest = all_usable enabled eps in
      if is_wanted to_int api_version enabled ep.name then usable ep.loaded ++ rest else rest
