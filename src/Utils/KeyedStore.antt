-- ===== src/Utils/KeyedStore.antt =====
-- The store that internal/utils/durationstore/durationstore.go and
-- internal/utils/timestore/timestore.go (under upstream/slurm-operator) both are: a `sync.Map` from
-- keys to values, and a test that resolves repeated pushes. Each call is one step: the map's
-- operations are atomic, and a stored value is guarded by its mutex.
pub mod Latest
use slinky_on_openshift.Prelude.{Bool, Option, none, some, List, [], String, if◌then◌else◌}
use slinky_on_openshift.Prelude.Dict.{Dict, lookup, insert, delete}
use slinky_on_openshift.Prelude.Int.{ℤ, pos, ltb_ℤ}

-- A value in the `sync.Map`: one of the store's own type, or anything else.
pub data Slot : Type 0 where
  held : ℤ → Slot
  corrupt : Slot

pub record KeyedStore : Type 0 where
  pub entries : Dict Slot
  pub eval : ℤ → ℤ → Bool

abbrev pub new_store : (ℤ → ℤ → Bool) → KeyedStore
new_store eval = record { entries = []; eval = eval }

-- `Greater` and `Less`, the two tests that the packages offer
abbrev pub greater : ℤ → ℤ → Bool
greater old new = ltb_ℤ old new

abbrev pub less : ℤ → ℤ → Bool
less old new = ltb_ℤ new old

-- `Update` of a held value
unfoldable pub update : (ℤ → ℤ → Bool) → ℤ → ℤ → ℤ
update eval old new = if eval old new then new else old

unfoldable pub push : String → ℤ → KeyedStore → KeyedStore
unfolding update
push key new s = elim (lookup key s.entries) [
  | none ↦ record s { entries = insert key (held new) s.entries }
  | some v ↦ elim v [
    | corrupt ↦ record s { entries = insert key (held new) (delete key s.entries) }
    | held d ↦ record s { entries = insert key (held (update s.eval d new)) s.entries }
  ]
]

-- `Get`, and 0 or the unit Time where nothing valid is stored
abbrev pub value_of : Option Slot → ℤ
value_of none = pos 0
value_of (some corrupt) = pos 0
value_of (some (held d)) = d

unfoldable pub pop : String → KeyedStore → ℤ × KeyedStore
pop key s = (value_of (lookup key s.entries), record s { entries = delete key s.entries })

unfoldable pub peek : String → KeyedStore → ℤ
peek key s = value_of (lookup key s.entries)
