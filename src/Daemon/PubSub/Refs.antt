-- ===== src/Daemon/PubSub/Refs.antt =====
-- The lists of references: removal, and what a delivery finds disconnected.
use hyprland_agent.Prelude.{
  ℕ, ◌≡◌, refl, ap, ◌∙◌, Bool, true, false, ◌||◌, Option, some, List, [], ◌∷◌, ◌++◌, ◌==◌, ==_iff,
  arith, Bool-cases, inl, inr, Option-cases,
}
use hyprland_agent.Daemon.PubSub.{
  Subscriber, put_nowait, remove_ref, remove_all, update_heap, deliver,
}

abbrev pub mem : ℕ → List ℕ → Bool
mem i [] = false
mem i (j ∷ refs) = (j == i) || mem i refs

abbrev pub Distinct : List ℕ → Type 0
Distinct [] = Unit
Distinct (i ∷ refs) = (mem i refs ≡ false) × Distinct refs

pub mem-remove_ref_ne :
    (i j : ℕ) (refs : List ℕ) → (j == i) ≡ false → mem i (remove_ref j refs) ≡ mem i refs
unfolding remove_ref
mem-remove_ref_ne i j [] ne = refl
mem-remove_ref_ne i j (k ∷ refs) ne = ground (arith, mem-remove_ref_ne i j refs ne)

pub mem-remove_ref_absent :
    (i j : ℕ) (refs : List ℕ) → mem i refs ≡ false → mem i (remove_ref j refs) ≡ false
unfolding remove_ref
mem-remove_ref_absent i j [] out = refl
mem-remove_ref_absent i j (k ∷ refs) out = ground (arith, mem-remove_ref_absent i j refs)

pub mem-remove_ref_self :
    (i : ℕ) (refs : List ℕ) → Distinct refs → mem i (remove_ref i refs) ≡ false
unfolding remove_ref
mem-remove_ref_self i [] d = refl
mem-remove_ref_self i (k ∷ refs) d = ground (arith, mem-remove_ref_self i refs d.1)

pub remove_ref-Distinct : (j : ℕ) (refs : List ℕ) → Distinct refs → Distinct (remove_ref j refs)
unfolding remove_ref
remove_ref-Distinct j [] d = tt
remove_ref-Distinct j (k ∷ refs) d =
    ground (arith, remove_ref-Distinct j refs d.1, mem-remove_ref_absent k j refs)

pub mem-remove_all :
    (i : ℕ) (dead refs : List ℕ) → mem i dead ≡ false → mem i (remove_all dead refs) ≡ mem i refs
unfolding remove_all
mem-remove_all i [] refs out = refl
mem-remove_all i (j ∷ dead) refs out =
    mem-remove_all i dead (remove_ref j refs) (ground arith)
    ∙ mem-remove_ref_ne i j refs (ground arith)

pub mem-remove_all_absent :
    (i : ℕ) (dead refs : List ℕ) → mem i refs ≡ false → mem i (remove_all dead refs) ≡ false
unfolding remove_all
mem-remove_all_absent i [] refs out = out
mem-remove_all_absent i (j ∷ dead) refs out =
    mem-remove_all_absent i dead (remove_ref j refs) (mem-remove_ref_absent i j refs out)

pub remove_all-Distinct : (dead refs : List ℕ) → Distinct refs → Distinct (remove_all dead refs)
unfolding remove_all
remove_all-Distinct [] refs d = d
remove_all-Distinct (j ∷ dead) refs d =
    remove_all-Distinct dead (remove_ref j refs) (remove_ref-Distinct j refs d)

pub mem-snoc : (i : ℕ) (refs : List ℕ) → mem i (refs ++ i ∷ []) ≡ true
mem-snoc i [] = ground arith
mem-snoc i (j ∷ refs) = ground (arith, mem-snoc i refs)

pub mem-snoc_ne : (i j : ℕ) (refs : List ℕ) → (j == i) ≡ false → mem i (refs ++ j ∷ []) ≡ mem i refs
mem-snoc_ne i j [] ne = rw ne
mem-snoc_ne i j (k ∷ refs) ne = ground (arith, mem-snoc_ne i j refs ne)

pub snoc-Distinct :
    (i : ℕ) (refs : List ℕ) → Distinct refs → mem i refs ≡ false → Distinct (refs ++ i ∷ [])
snoc-Distinct i [] d out = (refl, tt)
snoc-Distinct i (j ∷ refs) d out =
    (mem-snoc_ne j i refs (ground arith) ∙ d.0, snoc-Distinct i refs d.1 (ground arith))

module _ {A : Type 0} where
  -- A delivery writes to no reference outside the list, and finds none disconnected.
  pub deliver_absent :
      (heap : ℕ → Option (Subscriber A)) (refs : List ℕ) (p : A) (i : ℕ)
      → mem i refs ≡ false
      → ((deliver heap refs p).0 i ≡ heap i) × (mem i (deliver heap refs p).1 ≡ false)
  unfolding deliver
  deliver_absent heap [] p i out = (refl, refl)
  deliver_absent heap (j ∷ refs) p i out = elim (Option-cases (heap j)) [
    | inl gone ↦ rw (gone, deliver) (deliver_absent heap refs p i (ground arith))
    | inr (s, held) ↦
        let (same, out') =
          deliver_absent (update_heap heap j (put_nowait s p)) refs p i (ground arith) in
        rw (held, deliver) (ground arith, ground arith)
  ]

  -- A delivery writes once through each reference of the list, and does not find it disconnected
  -- unless the write disconnects it.
  pub deliver_member :
      (heap : ℕ → Option (Subscriber A)) (refs : List ℕ) (p : A) (i : ℕ) (s : Subscriber A)
      → Distinct refs
      → mem i refs ≡ true
      → heap i ≡ some s
      → (put_nowait s p).disconnected ≡ false
      → ((deliver heap refs p).0 i ≡ some (put_nowait s p))
        × (mem i (deliver heap refs p).1 ≡ false)
  unfolding deliver
  deliver_member heap [] p i s d here held live = cc
  deliver_member heap (j ∷ refs) p i s d here held live = elim (Bool-cases (j == i)) [
    | inl same ↦
        let e : heap j ≡ some s = ap heap ((==_iff j i).0 same) ∙ held in
        let out : mem i refs ≡ false = rw (← (==_iff j i).0 same) d.0 in
        let (kept, out') = deliver_absent (update_heap heap j (put_nowait s p)) refs p i out in
        rw (e, deliver) (ground arith, ground arith)
    | inr ne ↦ elim (Option-cases (heap j)) [
      | inl gone ↦ rw (gone, deliver) (deliver_member heap refs p i s d.1 (ground arith) held live)
      | inr (t, at_j) ↦
          let (kept, out') =
            deliver_member (update_heap heap j (put_nowait t p)) refs p i s d.1 (ground arith)
              (ground arith) live in
          rw (at_j, deliver) (ground arith, ground arith)
    ]
  ]
