-- ===== src/Naming/Ordinal.antt =====
-- The names of pods and the ordinals read back from them
-- (upstream/slurm-operator/internal/controller/nodeset/utils/utils.go).
use Prim.Native.Char.{code}
use Prim.Native.String.{String, ◌++◌ as str_append}
use Prim.Native.String.append
use text.Mathlib.TextLemmas.{append_assoc}
use slinky_on_openshift.Prelude.{
  ℕ, ◌+◌, ◌*◌, ◌-◌, ◌^◌, ◌<◌, ◌≡◌, refl, ap, true, false, none, some, arith,
}
use slinky_on_openshift.Prelude.Int.{ℤ, pos}
use slinky_on_openshift.Strconv.{read_digits, parse_digits, itoa, is_empty}
use slinky_on_openshift.Strconv.RoundTrip.{parse_digits-itoa}
use slinky_on_openshift.Kube.{Pod, NodeSet}
use slinky_on_openshift.Naming.{
  dash, get_pod_name, split_last_dash, all_digits, get_parent_name_and_ordinal, get_ordinal,
  is_pod_from_nodeset, get_parent_name, match_start,
}

all_digits-read : (s : String) (n m : ℕ) → read_digits n s ≡ some m → all_digits s ≡ true
unfolding read_digits all_digits
all_digits-read String.[] n m h = refl
all_digits-read (String.◌∷◌ c s) n m h =
    ground (arith, all_digits-read s (n * 10 + (code c - 48)) m)

split-digits : (s : String) → all_digits s ≡ true → split_last_dash s ≡ none
unfolding split_last_dash all_digits
split-digits String.[] h = refl
split-digits (String.◌∷◌ c s) h = ground (arith, split-digits s)

split-dash : (a b : String) → split_last_dash b ≡ none → split_last_dash (dash a b) ≡ some (a, b)
unfolding split_last_dash
split-dash String.[] b h = rw append.nil (rw h)
split-dash (String.◌∷◌ c a) b h = rw append.cons (ground (arith, split-dash a b h))

parse_digits-all_digits :
    (s : String) (n : ℕ) → parse_digits s ≡ some n → (all_digits s ≡ true) × (is_empty s ≡ false)
unfolding parse_digits
parse_digits-all_digits s n h = ground (arith, all_digits-read s 0 n)

-- A pod that is named for an ordinal has the NodeSet's name as its parent and that ordinal.
pub get_parent_name_and_ordinal-get_pod_name :
    (nodeset : NodeSet) (pod : Pod) (n : ℕ)
    → n < 2 ^ 31
    → pod.name ≡ get_pod_name nodeset (pos n)
    → get_parent_name_and_ordinal pod ≡ (nodeset.name, pos n)
unfolding get_parent_name_and_ordinal get_pod_name
get_parent_name_and_ordinal-get_pod_name nodeset pod n small named =
    let parsed = parse_digits-itoa n in
    let digits = parse_digits-all_digits (itoa (pos n)) n parsed in
    let split = split-dash nodeset.name (itoa (pos n)) (split-digits (itoa (pos n)) digits.0) in
    ground (arith, named, split, digits.0, digits.1, parsed)

pub parse_ordinal_bound : (pod : Pod) (n : ℕ) → get_ordinal pod ≡ pos n → n < 2 ^ 31
unfolding get_ordinal get_parent_name_and_ordinal
parse_ordinal_bound pod n h = ground arith

match_start-append : (p s : String) → match_start (str_append p s) p ≡ true
unfolding match_start
match_start-append String.[] s = refl
match_start-append (String.◌∷◌ c p) s = rw append.cons (ground (arith, match_start-append p s))

-- The filter of one NodeSet also takes the pods of any NodeSet whose name goes on behind the first
-- one's with a dash, although their parent, as read from the name, is the other NodeSet.
is_pod_from_nodeset-longer_name :
    (a b : NodeSet) (rest : String) (pod : Pod) (n : ℕ)
    → b.name ≡ dash a.name rest
    → n < 2 ^ 31
    → pod.name ≡ get_pod_name b (pos n)
    → (is_pod_from_nodeset a pod ≡ true) × (get_parent_name pod ≡ b.name)
unfolding is_pod_from_nodeset get_parent_name get_pod_name
is_pod_from_nodeset-longer_name a b rest pod n longer small named =
    let t = String.◌∷◌ "-" (itoa (pos n)) in
    let e : str_append (dash a.name "") (str_append rest t) ≡ pod.name =
      rw (named, longer)
        (rw append_assoc
          (rw append_assoc (rw append.cons (rw append.cons (rw append.nil refl))))) in
    (
      rw (← e) (match_start-append (dash a.name "") (str_append rest t)),
      ap (λ (r : String × ℤ). r.0) (get_parent_name_and_ordinal-get_pod_name b pod n small named),
    )
