-- ===== src/Orchestrator/Tree.antt =====
-- The search of the process tree, `_process_tree_contains` of `src/agent/orchestrator.py`, finds what
-- can be reached.
use hyprland_agent.Prelude.{
  ℕ, zero, suc, ◌+◌, ◌<◌, Text, ◌≡◌, refl, subst, ap, sym, ◌∙◌, ◌↔◌, inl, inr, Bool, true, false,
  not, ◌||◌, some, List, [], ◌∷◌, length, count_if, count_if-le-length, ◌==◌, ==_iff, ==_refl,
  Bool-cases, arith,
}
use hyprland_agent.Orchestrator.Processes.{
  Process, elem, children_of, details_of, some_marker, push_all, search_tree, process_tree_contains,
}

-- From parent to child, any number of times.
pub data Reaches (table : List Process) (root : ℕ) : ℕ → Type 0 where
  here : Reaches table root root
  child :
      {i j : ℕ} → Reaches table root i → elem j (children_of i table) ≡ true → Reaches table root j

-- The processes whose parent was not expanded yet.
abbrev unseen : List ℕ → List Process → ℕ
unseen seen table = count_if (λ p. not (elem p.ppid seen)) table

length-push_all : (is stack : List ℕ) → length (push_all is stack) ≡ length is + length stack
unfolding push_all
length-push_all [] stack = omega arith
length-push_all (i ∷ is) stack = omega (arith, length-push_all is (i ∷ stack))

elem-push_all :
    (j : ℕ) (is stack : List ℕ) → elem j (push_all is stack) ≡ (elem j is || elem j stack)
unfolding push_all
elem-push_all j [] stack = refl
elem-push_all j (i ∷ is) stack = ground (arith, elem-push_all j is (i ∷ stack))

-- A parent is expanded once, so its children are counted once.
unseen-cons :
    (i : ℕ) (seen : List ℕ) (table : List Process)
    → elem i seen ≡ false
    → length (children_of i table) + unseen (i ∷ seen) table ≡ unseen seen table
unfolding children_of
unseen-cons i seen [] h = refl
unseen-cons i seen (p ∷ table) h = elim (Bool-cases (p.ppid == i)) [
  | inl own ↦
      let same : p.ppid ≡ i = (==_iff p.ppid i).0 own in
      let fresh : elem p.ppid seen ≡ false = ap (λ k. elem k seen) same ∙ h in
      let back : (i == p.ppid) ≡ true = (==_iff i p.ppid).1 (sym same) in
      ground (arith, unseen-cons i seen table h)
  | inr foreign ↦ ground (arith, unseen-cons i seen table h, ==_iff p.ppid i, ==_iff i p.ppid)
]

not_both : {b : Bool} → b ≡ true → b ≡ false → ⊥
not_both t f = cc

not_some : some true ≡ some false → ⊥
not_some h = cc

one_less :
    (i j : ℕ) (stack seen : List ℕ)
    → elem i seen ≡ true
    → (elem j seen || elem j (i ∷ stack)) ≡ true
    → (elem j seen || elem j stack) ≡ true
one_less i j stack seen old h = elim (Bool-cases (i == j)) [
  | inl same ↦
      let e : elem j seen ≡ true = ap (λ k. elem k seen) (sym ((==_iff i j).0 same)) ∙ old in
      ground arith
  | inr apart ↦ ground arith
]

module _ (table : List Process) (markers : List Text) (root : ℕ) where
  abbrev is_marked : ℕ → Bool
  is_marked i = some_marker markers (details_of i table)

  -- The three turns of the loop.
  turn_old :
      (fuel i : ℕ) (stack seen : List ℕ)
      → elem i seen ≡ true
      → search_tree (suc fuel) table markers (i ∷ stack) seen
        ≡ search_tree fuel table markers stack seen
  unfolding search_tree
  turn_old fuel i stack seen old = ground arith

  turn_found :
      (fuel i : ℕ) (stack seen : List ℕ)
      → elem i seen ≡ false
      → is_marked i ≡ true
      → search_tree (suc fuel) table markers (i ∷ stack) seen ≡ some true
  unfolding search_tree
  turn_found fuel i stack seen fresh found = ground arith

  turn_fresh :
      (fuel i : ℕ) (stack seen : List ℕ)
      → elem i seen ≡ false
      → is_marked i ≡ false
      → search_tree (suc fuel) table markers (i ∷ stack) seen
        ≡ search_tree fuel table markers (push_all (children_of i table) stack) (i ∷ seen)
  unfolding search_tree
  turn_fresh fuel i stack seen fresh plain = ground arith

  -- Enough fuel: the entries of the stack and the processes that may still be pushed.
  search_tree_fuel :
      (fuel : ℕ) (stack seen : List ℕ)
      → length stack + unseen seen table < fuel
      → (answer : Bool) × (search_tree fuel table markers stack seen ≡ some answer)
  unfolding search_tree
  search_tree_fuel zero stack seen h = absurd (omega arith)
  search_tree_fuel (suc fuel) [] seen h = (false, refl)
  search_tree_fuel (suc fuel) (i ∷ stack) seen h = elim (Bool-cases (elem i seen)) [
    | inl old ↦ rw (turn_old fuel i stack seen old) (search_tree_fuel fuel stack seen (omega arith))
    | inr fresh ↦ elim (Bool-cases (is_marked i)) [
      | inl found ↦ (true, turn_found fuel i stack seen fresh found)
      | inr plain ↦ rw (turn_fresh fuel i stack seen fresh plain) (
          search_tree_fuel fuel (push_all (children_of i table) stack) (i ∷ seen) (
            omega
              (arith, unseen-cons i seen table fresh, length-push_all (children_of i table) stack)))
    ]
  ]

  -- What the stack holds can be reached.
  abbrev IsReached : List ℕ → Type 0
  IsReached stack = (i : ℕ) → elem i stack ≡ true → Reaches table root i

  abbrev Found : Type 0
  Found = (i : ℕ) × Reaches table root i × (is_marked i ≡ true)

  push-IsReached :
      (i : ℕ) (stack : List ℕ)
      → IsReached (i ∷ stack)
      → IsReached (push_all (children_of i table) stack)
  push-IsReached i stack r j e =
      let parts : (elem j (children_of i table) || elem j stack) ≡ true =
        sym (elem-push_all j (children_of i table) stack) ∙ e in
      elim (Bool-cases (elem j (children_of i table))) [
        | inl is_child ↦ child (r i (ground (arith, ==_refl i))) is_child
        | inr other ↦ r j (ground arith)
      ]

  search_tree-Found :
      (fuel : ℕ) (stack seen : List ℕ)
      → IsReached stack
      → search_tree fuel table markers stack seen ≡ some true
      → Found
  unfolding search_tree
  search_tree-Found zero stack seen r h = cc
  search_tree-Found (suc fuel) [] seen r h = cc
  search_tree-Found (suc fuel) (i ∷ stack) seen r h = elim (Bool-cases (elem i seen)) [
    | inl old ↦
        search_tree-Found fuel stack seen (λ j e. r j (ground arith))
          (sym (turn_old fuel i stack seen old) ∙ h)
    | inr fresh ↦ elim (Bool-cases (is_marked i)) [
      | inl found ↦ (i, r i (ground (arith, ==_refl i)), found)
      | inr plain ↦
          search_tree-Found fuel (push_all (children_of i table) stack) (i ∷ seen)
            (λ j e. push-IsReached i stack r j e)
            (sym (turn_fresh fuel i stack seen fresh plain) ∙ h)
    ]
  ]

  -- What was expanded has no marker, and its children are expanded or on the stack; so is the root.
  record IsClosed (stack seen : List ℕ) : Type 0 where
    plain : (i : ℕ) → elem i seen ≡ true → is_marked i ≡ false
    children :
        (i j : ℕ)
        → elem i seen ≡ true
        → elem j (children_of i table) ≡ true
        → (elem j seen || elem j stack) ≡ true
    start : (elem root seen || elem root stack) ≡ true

  skip-IsClosed :
      (i : ℕ) (stack seen : List ℕ)
      → elem i seen ≡ true
      → IsClosed (i ∷ stack) seen
      → IsClosed stack seen
  skip-IsClosed i stack seen old c = record {
    plain = c.plain;
    children = λ k j e f. one_less i j stack seen old (c.children k j e f);
    start = one_less i root stack seen old c.start;
  }

  expand-IsClosed :
      (i : ℕ) (stack seen : List ℕ)
      → is_marked i ≡ false
      → IsClosed (i ∷ stack) seen
      → IsClosed (push_all (children_of i table) stack) (i ∷ seen)
  expand-IsClosed i stack seen unmarked c = record {
    plain = λ j e. elim (Bool-cases (i == j)) [
      | inl same ↦ subst (λ k. is_marked k ≡ false) ((==_iff i j).0 same) unmarked
      | inr apart ↦ c.plain j (ground arith)
    ];
    children = λ k j e f. elim (Bool-cases (i == k)) [
      | inl same ↦
          let own : elem j (children_of i table) ≡ true =
            ap (λ x. elem j (children_of x table)) ((==_iff i k).0 same) ∙ f in
          ground (arith, elem-push_all j (children_of i table) stack)
      | inr apart ↦
          let known = c.children k j (ground arith) f in
          ground (arith, elem-push_all j (children_of i table) stack)
    ];
    start = ground (arith, c.start, elem-push_all root (children_of i table) stack);
  }

  closed-plain :
      (seen : List ℕ) (i : ℕ) → IsClosed [] seen → Reaches table root i → elem i seen ≡ true
  closed-plain seen i c here = ground (arith, c.start)
  closed-plain seen i c (child {i = k} {j = j} r e) =
      ground (arith, c.children k j (closed-plain seen k c r) e)

  search_tree-none :
      (fuel : ℕ) (stack seen : List ℕ) (i : ℕ)
      → IsClosed stack seen
      → search_tree fuel table markers stack seen ≡ some false
      → Reaches table root i
      → is_marked i ≡ false
  unfolding search_tree
  search_tree-none zero stack seen i c h r = cc
  search_tree-none (suc fuel) [] seen i c h r = c.plain i (closed-plain seen i c r)
  search_tree-none (suc fuel) (k ∷ stack) seen i c h r = elim (Bool-cases (elem k seen)) [
    | inl old ↦
        search_tree-none fuel stack seen i (skip-IsClosed k stack seen old c)
          (sym (turn_old fuel k stack seen old) ∙ h) r
    | inr fresh ↦ elim (Bool-cases (is_marked k)) [
      | inl found ↦ absurd (not_some (sym (turn_found fuel k stack seen fresh found) ∙ h))
      | inr plain ↦
          search_tree-none fuel (push_all (children_of k table) stack) (k ∷ seen) i
            (expand-IsClosed k stack seen plain c)
            (sym (turn_fresh fuel k stack seen fresh plain) ∙ h) r
    ]
  ]

  start-IsReached : IsReached (root ∷ [])
  start-IsReached i e = subst (Reaches table root) ((==_iff root i).0 (ground arith)) here

  start-IsClosed : IsClosed (root ∷ []) []
  start-IsClosed = record {
    plain = λ i e. cc;
    children = λ i j e f. cc;
    start = ground (arith, ==_refl root);
  }

  answer-Found :
      (answer : Bool)
      → search_tree (2 + length table) table markers (root ∷ []) [] ≡ some answer
      → (process_tree_contains table root markers ≡ true) ↔ Found
  unfolding process_tree_contains
  answer-Found true e = (
    λ h. search_tree-Found (2 + length table) (root ∷ []) [] start-IsReached e,
    λ f. ground arith,
  )
  answer-Found false e = (
    λ h. absurd (ground arith),
    λ f. absurd (
        not_both f.2 (search_tree-none (2 + length table) (root ∷ []) [] f.0 start-IsClosed e f.1)),
  )

  -- The loop over the process tree ends, and the answer is true exactly when the process itself
  -- or one below it has a marker in its details.
  pub process_tree_contains-Found :
      ((answer : Bool) × (search_tree (2 + length table) table markers (root ∷ []) []
          ≡ some answer))
      × ((process_tree_contains table root markers ≡ true)
          ↔ ((i : ℕ) × Reaches table root i × (some_marker markers (details_of i table) ≡ true)))
  process_tree_contains-Found =
      let ended =
        search_tree_fuel (2 + length table) (root ∷ []) []
          (omega (arith, count_if-le-length (λ p. not (elem p.ppid [])) table)) in
      (ended, answer-Found ended.0 ended.1)
