-- ===== src/Utils/TimeStore.antt =====
-- The store of times (upstream/slurm-operator/internal/utils/timestore/timestore.go), whose text is
-- that of the duration store but for the type of its values. A time is in nanoseconds since Go's zero
-- Time.
use slinky_on_openshift.Prelude.{Bool, String}
use slinky_on_openshift.Prelude.Int.{ℤ, ltb_ℤ}
use slinky_on_openshift.Utils.KeyedStore.{KeyedStore, new_store, push, pop, peek}

abbrev pub TimeStore : Type 0
TimeStore = KeyedStore

abbrev pub new_time_store : (eval : (old new : ℤ) → Bool) → TimeStore
new_time_store eval = new_store eval

-- `t.After(u)`
abbrev after : (t u : ℤ) → Bool
after t u = ltb_ℤ u t

abbrev pub greater : (old new : ℤ) → Bool
greater old new = after new old

abbrev pub push_time : (key : String) (new : ℤ) → TimeStore → TimeStore
push_time key new ts = push key new ts

abbrev pub pop_time : (key : String) → TimeStore → ℤ × TimeStore
pop_time key ts = pop key ts

abbrev pub peek_time : (key : String) → TimeStore → ℤ
peek_time key ts = peek key ts
