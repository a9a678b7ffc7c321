-- ===== src/Daemon/Store/Entries.antt =====
-- The entries of the cache of run details.
use hyprland_agent.Prelude.{
  Text, text_eq, text_eq_iff, text_key, ◌-◌, ◌≤◌, ◌<◌, ◌≡◌, refl, subst, false, none, some, [], ◌∷◌,
  ◌++◌, Dict, lookup, insert, erase, length, All, arith, Bool-cases, inl, inr,
}
use hyprland_agent.Schemas.{RunRecord}
use hyprland_agent.Daemon.Store.Writes.{Tables, RunStore, lru_capacity}
use hyprland_agent.Daemon.Store.Reads.{read_record, drop_oldest}

abbrev pub Entry : Type 0
Entry = Text × RunRecord

abbrev pub Agrees : Tables → Entry → Type 0
Agrees t entry = read_record t entry.0 ≡ some entry.1

-- Every cached record is what the tables hold, and the cache keeps to its capacity.
pub record IsCoherent (s : RunStore) : Type 0 where
  pub fresh : All (Agrees s.tables) s.lru
  pub bounded : length s.lru ≤ lru_capacity

pub lookup-All :
    (P : Entry → Type 0) (lru : Dict Text RunRecord) (id : Text) (r : RunRecord)
    → All P lru
    → lookup id lru ≡ some r
    → P (id, r)
lookup-All P [] id r a e = cc
lookup-All P ((j, q) ∷ lru) id r a e = elim (Bool-cases (text_eq j id)) [
  | inl same ↦
      let key : j ≡ id = (text_eq_iff j id).0 same in
      let value : q ≡ r = ground arith in
      subst (λ k. P (k, r)) key (subst (λ v. P (j, v)) value a.0)
  | inr ne ↦ lookup-All P lru id r a.1 (ground arith)
]

pub erase-All :
    (P Q : Entry → Type 0) (id : Text) (lru : Dict Text RunRecord)
    → ((entry : Entry) → text_eq entry.0 id ≡ false → P entry → Q entry)
    → All P lru
    → All Q (erase id lru)
erase-All P Q id [] keep a = tt
erase-All P Q id ((j, q) ∷ lru) keep a = elim (Bool-cases (text_eq j id)) [
  | inl same ↦ rw same (erase-All P Q id lru keep a.1)
  | inr ne ↦ rw ne (keep (j, q) ne a.0, erase-All P Q id lru keep a.1)
]

pub length-erase-le : (id : Text) (lru : Dict Text RunRecord) → length (erase id lru) ≤ length lru
length-erase-le id [] = omega arith
length-erase-le id ((j, q) ∷ lru) = ground (arith, length-erase-le id lru)

pub length-erase-lt :
    (id : Text) (lru : Dict Text RunRecord) (r : RunRecord)
    → lookup id lru ≡ some r
    → length (erase id lru) < length lru
length-erase-lt id [] r e = cc
length-erase-lt id ((j, q) ∷ lru) r e =
    ground (arith, length-erase-le id lru, length-erase-lt id lru r)

pub insert-absent :
    (id : Text) (r : RunRecord) (lru : Dict Text RunRecord)
    → lookup id lru ≡ none
    → insert id r lru ≡ lru ++ (id, r) ∷ []
insert-absent id r [] e = refl
insert-absent id r ((j, q) ∷ lru) e = ground (arith, insert-absent id r lru)

-- A write that erases the entry of its run, and that no other run's reads see.
pub erase-IsCoherent :
    (s : RunStore) (t : Tables) (id : Text)
    → IsCoherent s
    → ((j : Text) (r : RunRecord)
        → text_eq j id ≡ false
        → read_record s.tables j ≡ some r
        → read_record t j ≡ some r)
    → IsCoherent (record { tables = t; lru = erase id s.lru })
erase-IsCoherent s t id c keep = record {
  fresh = erase-All (Agrees s.tables) (Agrees t) id s.lru (λ e. keep e.0 e.1) c.fresh;
  bounded = omega (arith, length-erase-le id s.lru, c.bounded);
}

pub All-weaken :
    (P Q : Entry → Type 0) (lru : Dict Text RunRecord)
    → ((entry : Entry) → P entry → Q entry)
    → All P lru
    → All Q lru
All-weaken P Q [] keep a = tt
All-weaken P Q (e ∷ lru) keep a = (keep e a.0, All-weaken P Q lru keep a.1)

pub drop_oldest-All :
    (P : Entry → Type 0) (lru : Dict Text RunRecord) → All P lru → All P (drop_oldest lru)
drop_oldest-All P [] a = tt
drop_oldest-All P (e ∷ lru) a = a.1

pub length-drop_oldest : (lru : Dict Text RunRecord) → length (drop_oldest lru) ≡ length lru - 1
length-drop_oldest [] = omega arith
length-drop_oldest (e ∷ lru) = omega arith
