-- ===== src/Utils/Math.antt =====
-- upstream/slurm-operator/internal/utils/math.go
use slinky_on_openshift.Prelude.{◌≡◌, arith, Bool, Option, none, some}
use slinky_on_openshift.Prelude.Int.{ℤ, ◌≤ℤ◌, min_ℤ, max_ℤ}
use slinky_on_openshift.Kube.{IntOrString, Library}

unfoldable pub clamp : ℤ → ℤ → ℤ → ℤ
clamp val a b = let lower = min_ℤ a b in let upper = max_ℤ a b in min_ℤ (max_ℤ val lower) upper

-- For bounds in either order, the result lies between them, and a value between them is kept.
clamp_bounds :
    (val a b : ℤ)
    → (min_ℤ a b ≤ℤ clamp val a b)
      × (clamp val a b ≤ℤ max_ℤ a b)
      × (min_ℤ a b ≤ℤ val → val ≤ℤ max_ℤ a b → clamp val a b ≡ val)
unfolding clamp
clamp_bounds val a b = ground arith

unfoldable pub get_scaled_value_from_int_or_percent :
    Library → Option IntOrString → (total : ℤ) → (round_up : Bool) → (default_value : ℤ) → ℤ
get_scaled_value_from_int_or_percent k int_or_percent total round_up default_value =
    elim (k.scaled_value int_or_percent total round_up) [ none ↦ default_value | some val ↦ val ]
