-- ===== src/Naming/Storage.antt =====
-- `UpdateStorage` against `IsStorageMatch`
-- (upstream/slurm-operator/internal/controller/nodeset/utils/utils.go).
use Prim.Native.String.{String}
use text.Mathlib.TextPositions.{eq_refl}
use slinky_on_openshift.Prelude.{
  ℕ, ◌≡◌, refl, ◌∙◌, ◌⊎◌, inl, inr, true, false, some, List, [], ◌∷◌, ◌++◌, map, arith, eq_iff,
  str_eq, All, Bool-cases,
}
use slinky_on_openshift.Prelude.Dict.{Dict, lookup, insert, lookup-insert}
use slinky_on_openshift.Prelude.Int.{ℤ, pos, ltb_ℤ}
use slinky_on_openshift.Kube.{Volume, Pod, Claim, NodeSet}
use slinky_on_openshift.Strconv.{itoa}
use slinky_on_openshift.Naming.{
  dash, get_ordinal, get_parent_name_and_ordinal, get_persistent_volume_claim_name,
  claim_of_template, claims_of, get_persistent_volume_claims, claim_volume, other_volumes,
  update_storage, volumes_by_name, templates_match, is_storage_match,
}

volumes_by_name-append :
    (vs ws : List Volume) (m : Dict Volume)
    → volumes_by_name (vs ++ ws) m ≡ volumes_by_name ws (volumes_by_name vs m)
unfolding volumes_by_name
volumes_by_name-append [] ws m = refl
volumes_by_name-append (v ∷ vs) ws m = volumes_by_name-append vs ws (insert v.name v m)

-- The volumes that are kept do not take the place of a claim's volume.
lookup-other_volumes :
    (claims : Dict Claim) (vs : List Volume) (m : Dict Volume) (n : String) (c : Claim)
    → lookup n claims ≡ some c
    → lookup n (volumes_by_name (other_volumes claims vs) m) ≡ lookup n m
unfolding volumes_by_name other_volumes
lookup-other_volumes claims [] m n c h = refl
lookup-other_volumes claims (v ∷ vs) m n c h = ground (
  arith,
  lookup-other_volumes claims vs (insert v.name v m) n c h,
  lookup-other_volumes claims vs m n c h,
  lookup-insert v.name n v m,
  eq_iff v.name n,
)

-- the claim of template `n` has the name for `n` and this ordinal
abbrev Named : (String → String) → Dict Claim → Type 0
Named name = All (λ (e : String × Claim). e.1.name ≡ name e.0)

abbrev volume_of : (String → String) → String → Volume
volume_of name n = record { name = n; claim_name = some (name n) }

lookup-insert_claim :
    (name : String → String) (k n : String) (c : Claim) (m : Dict Volume)
    → str_eq k n ≡ true
    → c.name ≡ name k
    → lookup n (insert k (claim_volume (k, c)) m) ≡ some (volume_of name n)
lookup-insert_claim name k n c m same named =
    let e : k ≡ n = (eq_iff k n).0 same in
    rw (← e) (ground (arith, lookup-insert k k (claim_volume (k, c)) m, eq_refl k, named))

lookup-insert-some {ℓ} :
    {V : Type ℓ} (k n : String) (v c : V) (m : Dict V)
    → lookup n m ≡ some c
    → (d : V) × (lookup n (insert k v m) ≡ some d)
lookup-insert-some k n v c m h = elim (Bool-cases (str_eq k n)) [
  | inl same ↦ (v, rw lookup-insert (rw same))
  | inr other ↦ (c, rw lookup-insert (rw other h))
]

lookup-insert_ne {ℓ} :
    {V : Type ℓ} (k n : String) (v : V) (m : Dict V)
    → str_eq k n ≡ false
    → lookup n (insert k v m) ≡ lookup n m
lookup-insert_ne k n v m other = rw lookup-insert (rw other)

lookup-claim_volumes :
    (name : String → String) (claims : Dict Claim) (m : Dict Volume) (n : String)
    → Named name claims
    → ((c : Claim) × (lookup n claims ≡ some c)) ⊎ (lookup n m ≡ some (volume_of name n))
    → lookup n (volumes_by_name (map claim_volume claims) m) ≡ some (volume_of name n)
unfolding volumes_by_name lookup
lookup-claim_volumes name [] m n all (inl (c, h)) = cc
lookup-claim_volumes name [] m n all (inr h) = h
lookup-claim_volumes name ((k, c) ∷ claims) m n all h = elim (Bool-cases (str_eq k n)) [
  | inl same ↦
      lookup-claim_volumes name claims (insert k (claim_volume (k, c)) m) n all.1
        (inr (lookup-insert_claim name k n c m same all.0))
  | inr other ↦
      lookup-claim_volumes name claims (insert k (claim_volume (k, c)) m) n all.1 (elim h [
        | inl (x, found) ↦ inl (x, ground arith)
        | inr found ↦ inr (lookup-insert_ne k n (claim_volume (k, c)) m other ∙ found)
      ])
]

module _ (nodeset : NodeSet) (ordinal : ℤ) where
  -- the name of the claim of a template
  abbrev claim_name : String → String
  claim_name n = dash n (dash nodeset.name (itoa ordinal))

  Named-insert :
      (t : Claim) (claims : Dict Claim)
      → Named claim_name claims
      → Named claim_name (insert t.name (claim_of_template nodeset ordinal t) claims)
  unfolding insert claim_of_template get_persistent_volume_claim_name
  Named-insert t [] all = (refl, tt)
  Named-insert t ((k, c) ∷ claims) all = elim (Bool-cases (str_eq k t.name)) [
    | inl same ↦ rw same (refl, all.1)
    | inr other ↦ rw other (all.0, Named-insert t claims all.1)
  ]

  claims_of-Named :
      (ts : List Claim) (claims : Dict Claim)
      → Named claim_name claims
      → Named claim_name (claims_of nodeset ordinal ts claims)
  unfolding claims_of
  claims_of-Named [] claims all = all
  claims_of-Named (t ∷ ts) claims all =
      claims_of-Named ts (insert t.name (claim_of_template nodeset ordinal t) claims)
        (Named-insert t claims all)

  -- a claim once in the map stays there
  claims_of-keeps :
      (ts : List Claim) (claims : Dict Claim) (n : String) (c : Claim)
      → lookup n claims ≡ some c
      → (d : Claim) × (lookup n (claims_of nodeset ordinal ts claims) ≡ some d)
  unfolding claims_of
  claims_of-keeps [] claims n c h = (c, h)
  claims_of-keeps (t ∷ ts) claims n c h =
      let (d, kept) =
        lookup-insert-some t.name n (claim_of_template nodeset ordinal t) c claims h in
      claims_of-keeps ts (insert t.name (claim_of_template nodeset ordinal t) claims) n d kept

  -- every template has its claim in the map
  claims_of-has :
      (ts : List Claim) (claims : Dict Claim)
      → All (λ t. (d : Claim) × (lookup t.name (claims_of nodeset ordinal ts claims) ≡ some d)) ts
  unfolding claims_of
  claims_of-has [] claims = tt
  claims_of-has (t ∷ ts) claims =
      let c = claim_of_template nodeset ordinal t in
      (
        claims_of-keeps ts (insert t.name c claims) t.name c
            (rw lookup-insert (rw (eq_refl t.name))),
        claims_of-has ts (insert t.name c claims),
      )

  volumes-match :
      (ts : List Claim) (volumes : Dict Volume)
      → All (λ t. lookup t.name volumes ≡ some (volume_of claim_name t.name)) ts
      → templates_match nodeset ordinal volumes ts ≡ true
  unfolding templates_match get_persistent_volume_claim_name
  volumes-match [] volumes all = refl
  volumes-match (t ∷ ts) volumes (found, all) =
      ground (arith, found, volumes-match ts volumes all, eq_refl (claim_name t.name))

  All-volumes :
      (claims : Dict Claim) (vs : List Volume) (ts : List Claim)
      → Named claim_name claims
      → All (λ t. (d : Claim) × (lookup t.name claims ≡ some d)) ts
      → All
          (λ t.
            lookup t.name (volumes_by_name (map claim_volume claims ++ other_volumes claims vs) [])
            ≡ some (volume_of claim_name t.name))
          ts
  All-volumes claims vs [] named all = tt
  All-volumes claims vs (t ∷ ts) named ((d, found), all) = (
    rw volumes_by_name-append (
        lookup-other_volumes claims vs (volumes_by_name (map claim_volume claims) []) t.name d found
        ∙ lookup-claim_volumes claim_name claims [] t.name named (inl (d, found))),
    All-volumes claims vs ts named all,
  )

get_ordinal-update_storage :
    (nodeset : NodeSet) (pod : Pod) → get_ordinal (update_storage nodeset pod) ≡ get_ordinal pod
unfolding get_ordinal get_parent_name_and_ordinal update_storage
get_ordinal-update_storage nodeset pod = refl

-- For every pod whose name has an ordinal: after `UpdateStorage` its volumes match the NodeSet's
-- claim templates, whatever volumes it had, and also if two templates share a name.
pub is_storage_match-update_storage :
    (nodeset : NodeSet) (pod : Pod) (n : ℕ)
    → get_ordinal pod ≡ pos n
    → is_storage_match nodeset (update_storage nodeset pod) ≡ true
unfolding is_storage_match update_storage get_ordinal get_parent_name_and_ordinal
is_storage_match-update_storage nodeset pod n h =
    let ts = nodeset.volume_claim_templates in
    let claims = get_persistent_volume_claims nodeset pod in
    let named = claims_of-Named nodeset (get_ordinal pod) ts [] tt in
    let has = claims_of-has nodeset (get_ordinal pod) ts [] in
    let all = All-volumes nodeset (get_ordinal pod) claims pod.volumes ts named has in
    let match = volumes-match nodeset (get_ordinal pod) ts _ all in
    let e : get_ordinal (update_storage nodeset pod) ≡ pos n =
      get_ordinal-update_storage nodeset pod ∙ h in
    let nonneg : ltb_ℤ (pos n) (pos 0) ≡ false = ground arith in rw e (rw nonneg (rw h at match))
