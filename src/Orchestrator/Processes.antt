-- ===== src/Orchestrator/Processes.antt =====
-- `_process_tree_contains` of `src/agent/orchestrator.py`. The table is what the loop over `/proc`
-- reads: for each process its parent and its details in lower case.
use hyprland_agent.Prelude.{
  ℕ, zero, suc, ◌+◌, Text, Bool, true, false, ◌||◌, ◌&&◌, Option, none, some, List, [], ◌∷◌, ◌==◌,
  if◌then◌else◌, length,
}

pub record Process : Type 0 where
  pub pid : ℕ
  pub ppid : ℕ
  pub details : Text

-- `i in seen`
abbrev pub elem : ℕ → List ℕ → Bool
elem i [] = false
elem i (j ∷ js) = (j == i) || elem i js

-- `children.get(current, [])`
unfoldable pub children_of : ℕ → List Process → List ℕ
children_of i [] = []
children_of i (p ∷ table) = if p.ppid == i then p.pid ∷ children_of i table else children_of i table

-- `candidates.get(current, "")`: the identifiers of `/proc` are distinct.
unfoldable pub details_of : ℕ → List Process → Text
details_of i [] = []
details_of i (p ∷ table) = if p.pid == i then p.details else details_of i table

abbrev pub starts_with : Text → Text → Bool
starts_with [] s = true
starts_with (c ∷ cs) [] = false
starts_with (c ∷ cs) (d ∷ ds) = (c == d) && starts_with cs ds

-- `marker in details`
unfoldable pub is_in : Text → Text → Bool
is_in marker [] = starts_with marker []
is_in marker (d ∷ ds) = starts_with marker (d ∷ ds) || is_in marker ds

-- `any(marker in details for marker in markers)`
unfoldable pub some_marker : List Text → Text → Bool
some_marker [] details = false
some_marker (marker ∷ markers) details = is_in marker details || some_marker markers details

-- `stack.extend(children)`, for a stack with its top first.
unfoldable pub push_all : List ℕ → List ℕ → List ℕ
push_all [] stack = stack
push_all (i ∷ is) stack = push_all is (i ∷ stack)

-- The `while stack` loop, the top of the stack first; `none` is a lack of fuel.
unfoldable pub search_tree : ℕ → List Process → List Text → List ℕ → List ℕ → Option Bool
search_tree zero table markers stack seen = none
search_tree (suc fuel) table markers [] seen = some false
search_tree (suc fuel) table markers (current ∷ stack) seen = elim (elem current seen) [
  | true ↦ search_tree fuel table markers stack seen
  | false ↦ elim (some_marker markers (details_of current table)) [
    | true ↦ some true
    | false ↦
        search_tree fuel table markers (push_all (children_of current table) stack) (current ∷ seen)
  ]
]

-- Each turn takes one entry from the stack, and a process is pushed at most once.
unfoldable pub process_tree_contains : List Process → ℕ → List Text → Bool
process_tree_contains table pid markers =
    elim (search_tree (2 + length table) table markers (pid ∷ []) []) [
      | some answer ↦ answer
      | none ↦ false
    ]
