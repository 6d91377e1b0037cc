-- ===== src/Utils/KeyedStore/Latest.antt =====
-- What a key of a duration store or a time store holds after any pushes.
use slinky_on_openshift.Prelude.{
  ◌≡◌, refl, ap, ◌∙◌, Bool, Option, none, some, List, [], ◌∷◌, String, arith, str_eq, eq_iff,
  if◌then◌else◌,
}
use slinky_on_openshift.Prelude.Dict.{lookup, delete, lookup-insert, lookup-delete}
use slinky_on_openshift.Prelude.Int.{ℤ, pos, max_ℤ}
use slinky_on_openshift.Utils.KeyedStore.{
  Slot, held, corrupt, KeyedStore, new_store, greater, update, push, pop, value_of, peek,
}

-- the pushes in order
unfoldable pub push_all : List (String × ℤ) → KeyedStore → KeyedStore
push_all [] s = s
push_all ((k, v) ∷ l) s = push_all l (push k v s)

-- The greatest value that the list has for a key.
unfoldable pub latest : String → List (String × ℤ) → Option ℤ
latest k [] = none
latest k ((j, v) ∷ l) =
    let rest = latest k l in
    if str_eq j k then elim rest [ none ↦ some v | some w ↦ some (max_ℤ v w) ] else rest

abbrev pub join : Option Slot → Option ℤ → Option Slot
join o none = o
join none (some w) = some (held w)
join (some corrupt) (some w) = some (held w)
join (some (held d)) (some w) = some (held (max_ℤ d w))

lookup-push :
    (k j : String) (v : ℤ) (s : KeyedStore)
    → s.eval ≡ greater
    → lookup j (push k v s).entries
      ≡ (if str_eq k j then join (lookup j s.entries) (some v) else lookup j s.entries)
unfolding push update
lookup-push k j v s h = go (lookup k s.entries) refl
  where
    go :
        (o : Option Slot)
        → lookup k s.entries ≡ o
        → lookup j (push k v s).entries
          ≡ (if str_eq k j then join (lookup j s.entries) (some v) else lookup j s.entries)
    go none e = ground (arith, e, eq_iff k j, lookup-insert k j (held v) s.entries)
    go (some corrupt) e = ground (
      arith,
      e,
      eq_iff k j,
      lookup-delete k j s.entries,
      lookup-insert k j (held v) (delete k s.entries),
    )
    go (some (held d)) e = ground (
      arith,
      e,
      eq_iff k j,
      ap (λ (f : ℤ → ℤ → Bool). f d v) h,
      lookup-insert k j (held (update s.eval d v)) s.entries,
    )

eval-push : (k : String) (v : ℤ) (s : KeyedStore) → (push k v s).eval ≡ s.eval
unfolding push
eval-push k v s = ground arith

pub lookup-push_all :
    (l : List (String × ℤ)) (k : String) (s : KeyedStore)
    → s.eval ≡ greater
    → lookup k (push_all l s).entries ≡ join (lookup k s.entries) (latest k l)
unfolding push_all latest
lookup-push_all [] k s h = refl
lookup-push_all ((j, v) ∷ l) k s h =
    let rest = lookup-push_all l k (push j v s) (eval-push j v s ∙ h) in
    ground (arith, rest, lookup-push j k v s h)

abbrev pub or_zero : Option ℤ → ℤ
or_zero none = pos 0
or_zero (some v) = v

pub value-join : (o : Option ℤ) → value_of (join none o) ≡ or_zero o
value-join none = refl
value-join (some v) = refl

-- From a new store whose test is `Greater`: after any pushes, `Pop` returns the greatest value that
-- was pushed for its key, or 0 if there was none; the key is then gone, and any other key still has
-- the greatest of its own.
pub pop-push_all :
    (l : List (String × ℤ)) (k j : String)
    → let (v, s) = pop k (push_all l (new_store greater)) in
      (v ≡ or_zero (latest k l)) × (peek j s ≡ (if str_eq k j then pos 0 else or_zero (latest j l)))
unfolding pop peek lookup
pop-push_all l k j =
    let at_k = lookup-push_all l k (new_store greater) refl in
    let at_j = lookup-push_all l j (new_store greater) refl in
    (
      ap value_of at_k ∙ value-join (latest k l),
      ground (
        arith,
        at_j,
        value-join (latest j l),
        lookup-delete k j (push_all l (new_store greater)).entries,
      ),
    )
