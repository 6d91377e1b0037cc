-- ===== src/Clusters/Running.antt =====
-- Which clients run (upstream/slurm-operator/internal/resources/clusters.go).
use text.Mathlib.TextPositions.{eq_refl}
use slinky_on_openshift.Prelude.{
  ℕ, ◌+◌, ◌==◌, ◌≡◌, refl, Bool-cases, Option-cases, inl, inr, none, some, List, [], ◌∷◌, String,
  arith, str_eq, eq_iff, if◌then◌else◌,
}
use slinky_on_openshift.Prelude.Dict.{Dict, lookup, insert, delete, lookup-insert, lookup-delete}
use slinky_on_openshift.Clusters.{
  Call, start, stop, Clusters, new_clusters, get, add, remove, add_client,
}

abbrev one_if : ℕ → ℕ → ℕ
one_if a b = if a == b then 1 else 0

-- how often a client was started and stopped, and how many names have it
abbrev pub starts : ℕ → List Call → ℕ
starts x [] = 0
starts x (start y ∷ calls) = one_if x y + starts x calls
starts x (stop y ∷ calls) = starts x calls

abbrev pub stops : ℕ → List Call → ℕ
stops x [] = 0
stops x (start y ∷ calls) = stops x calls
stops x (stop y ∷ calls) = one_if x y + stops x calls

abbrev pub names_of : ℕ → Dict ℕ → ℕ
names_of x [] = 0
names_of x (entry ∷ rest) = one_if x entry.1 + names_of x rest

abbrev Distinct : Dict ℕ → Type 0
Distinct [] = Unit {0}
Distinct (entry ∷ rest) = (lookup entry.0 rest ≡ none) × Distinct rest

names_of-insert :
    (x y : ℕ) (name : String) (d : Dict ℕ)
    → lookup name d ≡ none
    → names_of x (insert name y d) ≡ one_if x y + names_of x d
unfolding lookup insert
names_of-insert x y name [] absent = refl
names_of-insert x y name (entry ∷ rest) absent =
    ground (arith, absent, names_of-insert x y name rest)

delete-absent : (name : String) (d : Dict ℕ) → lookup name d ≡ none → delete name d ≡ d
unfolding lookup delete
delete-absent name [] absent = refl
delete-absent name (entry ∷ rest) absent = ground (arith, absent, delete-absent name rest)

names_of-delete :
    (x y : ℕ) (name : String) (d : Dict ℕ)
    → Distinct d
    → lookup name d ≡ some y
    → names_of x d ≡ one_if x y + names_of x (delete name d)
unfolding lookup delete
names_of-delete x y name [] distinct there = ground (arith, there)
names_of-delete x y name (entry ∷ rest) distinct there = ground (
  arith,
  there,
  distinct.0,
  eq_iff entry.0 name,
  delete-absent name rest,
  names_of-delete x y name rest distinct.1,
)

Distinct-insert :
    (y : ℕ) (name : String) (d : Dict ℕ)
    → Distinct d
    → lookup name d ≡ none
    → Distinct (insert name y d)
unfolding lookup insert
Distinct-insert y name [] distinct absent = (refl, tt)
Distinct-insert y name (entry ∷ rest) distinct absent = elim (Bool-cases (str_eq entry.0 name)) [
  | inl same ↦ ground (arith, absent, same)
  | inr other ↦ rw other (
    ground (
      arith,
      lookup-insert name entry.0 y rest,
      eq_iff name entry.0,
      eq_iff entry.0 name,
      other,
      distinct.0,
    ),
    Distinct-insert y name rest distinct.1 (ground (arith, absent, other)),
  )
]

Distinct-delete : (name : String) (d : Dict ℕ) → Distinct d → Distinct (delete name d)
unfolding lookup delete
Distinct-delete name [] distinct = tt
Distinct-delete name (entry ∷ rest) distinct = elim (Bool-cases (str_eq entry.0 name)) [
  | inl same ↦ rw same (Distinct-delete name rest distinct.1)
  | inr other ↦ rw other (
    ground (arith, lookup-delete name entry.0 rest, distinct.0),
    Distinct-delete name rest distinct.1,
  )
]

-- what the operations reach from the start
pub data Reachable : Clusters → Type 0 where
  new : Reachable new_clusters
  adding :
      (name : String) (client : ℕ) (c : Clusters)
      → Reachable c
      → Reachable (add_client name client c).1
  removing : (name : String) (c : Clusters) → Reachable c → Reachable (remove name c).1

IsBalanced : Clusters → Type 0
IsBalanced c =
    Distinct c.clients × ((x : ℕ) → starts x c.calls ≡ stops x c.calls + names_of x c.clients)

remove-IsBalanced : (name : String) (c : Clusters) → IsBalanced c → IsBalanced (remove name c).1
unfolding remove IsBalanced
remove-IsBalanced name c balanced = elim (Option-cases (lookup name c.clients)) [
  | inl absent ↦ rw (remove, absent) balanced
  | inr (y, there) ↦
      rw (remove, there)
        (
          Distinct-delete name c.clients balanced.0,
          λ x. ground (arith, balanced.1 x, names_of-delete x y name c.clients balanced.0 there),
        )
]

add-IsBalanced :
    (name : String) (client : ℕ) (c : Clusters) → IsBalanced c → IsBalanced (add name client c).1
unfolding add IsBalanced
add-IsBalanced name client c balanced = elim (Option-cases (lookup name c.clients)) [
  | inr (y, there) ↦ rw (add, there) balanced
  | inl absent ↦
      rw (add, absent)
        (
          Distinct-insert client name c.clients balanced.0 absent,
          λ x. ground (arith, balanced.1 x, names_of-insert x client name c.clients absent),
        )
]

Reachable-IsBalanced : (c : Clusters) → Reachable c → IsBalanced c
unfolding IsBalanced add_client
Reachable-IsBalanced c new = (tt, λ x. refl)
Reachable-IsBalanced c (adding name client b before) =
    add-IsBalanced name client (remove name b).1
      (remove-IsBalanced name b (Reachable-IsBalanced b before))
Reachable-IsBalanced c (removing name b before) =
    remove-IsBalanced name b (Reachable-IsBalanced b before)

-- After any adds and removes from the start: each client was started as often as it was stopped and
-- names have it, so that exactly the clients that names have still run.
pub starts-stops :
    (c : Clusters)
    → Reachable c
    → (x : ℕ) → starts x c.calls ≡ stops x c.calls + names_of x c.clients
unfolding IsBalanced
starts-stops c reached = (Reachable-IsBalanced c reached).1

pub get-remove :
    (name asked : String) (c : Clusters)
    → get asked (remove name c).1 ≡ (if str_eq name asked then none else get asked c)
unfolding get remove
get-remove name asked c = elim (Option-cases (lookup name c.clients)) [
  | inl absent ↦ ground (arith, absent, eq_iff name asked)
  | inr (y, there) ↦ ground (arith, there, lookup-delete name asked c.clients)
]

-- After an Add, the name has the new client, also if it had another, and each other name has what it
-- had.
pub get-add_client :
    (name asked : String) (client : ℕ) (c : Clusters)
    → get asked (add_client name client c).1
      ≡ (if str_eq name asked then some client else get asked c)
unfolding get add_client add remove
get-add_client name asked client c = elim (Option-cases (lookup name c.clients)) [
  | inl absent ↦ ground (arith, absent, lookup-insert name asked client c.clients)
  | inr (y, there) ↦ ground (
    arith,
    there,
    eq_refl name,
    lookup-delete name name c.clients,
    lookup-delete name asked c.clients,
    lookup-insert name asked client (delete name c.clients),
  )
]
