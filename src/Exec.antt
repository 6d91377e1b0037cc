-- ===== src/Exec.antt =====
-- Go functions that change state and may fail. What was written before an error stays written, so
-- the state comes back beside the error. A panic (a write to a nil map) is an outcome of its own.
use slinky_on_openshift.Prelude.{
  ◌≡◌, refl, ◌⊎◌, inl, inr, Bool, true, false, not, arith, Option, none, some, List, [], ◌∷◌,
  String,
}

-- What the operator tells apart in an `error`: the reasons that `apierrors` tests, the text of a
-- Slurm client's error, any other message, and the aggregate of
-- `utilerrors.NewAggregate` (`single` and `also`).
pub data Error : Type 0 where
  not_found already_exists conflict invalid namespace_terminating : Error
  status_text : String → Error
  message : String → Error
  single : Error → Error
  also : Error → Error → Error

-- `apierrors.HasStatusCause(err, corev1.NamespaceTerminatingCause)`
abbrev pub is_namespace_terminating : Error → Bool
is_namespace_terminating namespace_terminating = true
is_namespace_terminating _ = false

pub data Result {ℓ} (A : Type ℓ) : Type ℓ where
  ok : A → Result A
  err : Error → Result A
  panic : Result A

pub Result-cases {ℓ} :
    {A : Type ℓ} (r : Result A) → ((a : A) × (r ≡ ok a)) ⊎ ((e : Error) × (r ≡ err e)) ⊎ (r ≡ panic)
Result-cases (ok a) = inl (a, refl)
Result-cases (err e) = inr (inl (e, refl))
Result-cases panic = inr (inr refl)

-- a call that returns, and says nothing of a namespace that is being terminated
abbrev pub is_calm {ℓ} : {A : Type ℓ} → Result A → Bool
is_calm (ok a) = true
is_calm (err e) = not (is_namespace_terminating e)
is_calm panic = false

pub is_calm-cases {ℓ} :
    {A : Type ℓ} (r : Result A)
    → is_calm r ≡ true
    → ((a : A) × (r ≡ ok a)) ⊎ ((e : Error) × (r ≡ err e) × (is_namespace_terminating e ≡ false))
is_calm-cases (ok a) h = inl (a, refl)
is_calm-cases (err e) h = inr (e, refl, ground (arith, h))
is_calm-cases panic h = absurd (ground (arith, h))

abbrev pub M {ℓ} : Type ℓ → Type ℓ → Type ℓ
M S A = S → Result A × S

module _ {ℓ} {S A : Type ℓ} where
  abbrev pub pure : A → M S A
  pure a s = (ok a, s)

  abbrev pub raise : Error → M S A
  raise e s = (err e, s)

module _ {ℓ} {S A B : Type ℓ} where
  abbrev continue : Result A → (A → M S B) → M S B
  continue (ok a) f s = f a s
  continue (err e) f s = (err e, s)
  continue panic f s = (panic, s)

  infixl 5 ◌>>=◌ ◌>>◌
  abbrev pub ◌>>=◌ : M S A → (A → M S B) → M S B
  ◌>>=◌ m f s = continue (m s).0 f (m s).1

  abbrev pub ◌>>◌ : M S A → M S B → M S B
  m >> k = m >>= λ _. k

-- `utilerrors.NewAggregate`: nil for an empty list of errors
abbrev pub new_aggregate : List Error → Option Error
new_aggregate [] = none
new_aggregate (e ∷ es) = elim (new_aggregate es) [
  | none ↦ some (single e)
  | some f ↦ some (also e f)
]
