-- ===== src/SlurmControl/Deadlines/Latest.antt =====
-- The deadline of a pod's node is the latest over all running jobs, those included that
-- `GetNodeDeadlines` skips
-- (upstream/slurm-operator/internal/controller/nodeset/slurmcontrol/slurmcontrol.go).
use slinky_on_openshift.Prelude.{
  ◌≡◌, refl, sym, ap, ◌∙◌, true, false, Option, none, some, List, [], ◌∷◌, ◌++◌, String, any, arith,
  eq_iff, Bool-cases, Option-cases, inl, inr,
}
use slinky_on_openshift.Prelude.Dict.{Dict, lookup}
use slinky_on_openshift.Prelude.Int.{ℤ}
use slinky_on_openshift.Exec.{Result, ok, err, message}
use slinky_on_openshift.Kube.{NodeSet, Pod}
use slinky_on_openshift.Utils.KeyedStore.{KeyedStore, new_store, greater, push, value_of, peek}
use slinky_on_openshift.Utils.KeyedStore.Latest.{
  push_all, latest, or_zero, lookup-push_all, value-join,
}
use slinky_on_openshift.SlurmControl.Nodes.{Job, SlurmClient}
use slinky_on_openshift.SlurmControl.Client.{lookup_client}
use slinky_on_openshift.SlurmControl.Deadlines.{
  deadline, nodes_of, is_node_of, push_names, push_jobs, get_node_deadlines,
}

abbrev with_time : ℤ → List String → List (String × ℤ)
with_time d [] = []
with_time d (n ∷ ns) = (n, d) ∷ with_time d ns

push_all-append :
    (xs ys : List (String × ℤ)) (ts : KeyedStore)
    → push_all (xs ++ ys) ts ≡ push_all ys (push_all xs ts)
unfolding push_all
push_all-append [] ys ts = refl
push_all-append ((k, v) ∷ xs) ys ts = push_all-append xs ys (push k v ts)

push_names-push_all :
    (names : List String) (d : ℤ) (ts : KeyedStore)
    → push_names names d ts ≡ push_all (with_time d names) ts
unfolding push_names push_all
push_names-push_all [] d ts = refl
push_names-push_all (n ∷ names) d ts = push_names-push_all names d (push n d ts)

latest-append-none :
    (k : String) (xs ys : List (String × ℤ))
    → latest k xs ≡ none
    → latest k (xs ++ ys) ≡ latest k ys
unfolding latest
latest-append-none k [] ys h = refl
latest-append-none k ((j, v) ∷ xs) ys h = ground (arith, latest-append-none k xs ys)

latest-append-cong :
    (k : String) (xs ys zs : List (String × ℤ))
    → latest k ys ≡ latest k zs
    → latest k (xs ++ ys) ≡ latest k (xs ++ zs)
unfolding latest
latest-append-cong k [] ys zs h = h
latest-append-cong k ((j, v) ∷ xs) ys zs h = rw (latest-append-cong k xs ys zs h) refl

latest-untouched :
    (pods : List Pod) (k : String) (d : ℤ) (names : List String)
    → is_node_of pods k ≡ true
    → any (is_node_of pods) names ≡ false
    → latest k (with_time d names) ≡ none
unfolding latest
latest-untouched pods k d [] h u = refl
latest-untouched pods k d (n ∷ names) h u =
    ground
      (arith, eq_iff n k, ap (is_node_of pods) {x = n} {y = k}, latest-untouched pods k d names h)

module _ (expand : String → Option (List String)) where
  -- The end of every running job on every node that it uses, in the order of the list, or none if
  -- the nodes of a running job cannot be told.
  pub job_ends : List Job → Option (List (String × ℤ))
  job_ends [] = some []
  job_ends (job ∷ jobs) = elim job.running [
    | false ↦ job_ends jobs
    | true ↦ elim (expand (nodes_of job)) [
      | none ↦ none
      | some names ↦ elim (job_ends jobs) [
        | none ↦ none
        | some l ↦ some (with_time (deadline job) names ++ l)
      ]
    ]
  ]

  module _ (pods : List Pod) where
    -- the ends that the loop pushes
    pushed_ends : List Job → Option (List (String × ℤ))
    pushed_ends [] = some []
    pushed_ends (job ∷ jobs) = elim job.running [
      | false ↦ pushed_ends jobs
      | true ↦ elim (expand (nodes_of job)) [
        | none ↦ none
        | some names ↦ elim (any (is_node_of pods) names) [
          | false ↦ pushed_ends jobs
          | true ↦ elim (pushed_ends jobs) [
            | none ↦ none
            | some l ↦ some (with_time (deadline job) names ++ l)
          ]
        ]
      ]
    ]

    abbrev prefixed : List (String × ℤ) → Option (List (String × ℤ)) → Option (List (String × ℤ))
    prefixed xs none = none
    prefixed xs (some l) = some (xs ++ l)

    abbrev pushed_onto : KeyedStore → Option (List (String × ℤ)) → Option KeyedStore
    pushed_onto ts none = none
    pushed_onto ts (some l) = some (push_all l ts)

    appended :
        (ts : KeyedStore) (xs : List (String × ℤ)) (o : Option (List (String × ℤ)))
        → pushed_onto (push_all xs ts) o ≡ pushed_onto ts (prefixed xs o)
    appended ts xs none = refl
    appended ts xs (some l) = ap some (sym (push_all-append xs l ts))

    push_jobs-pushed_ends :
        (jobs : List Job) (ts : KeyedStore)
        → push_jobs expand pods jobs ts ≡ pushed_onto ts (pushed_ends jobs)
    unfolding push_jobs pushed_ends push_all
    push_jobs-pushed_ends [] ts = refl
    push_jobs-pushed_ends (job ∷ jobs) ts = elim (Bool-cases job.running) [
      | inr off ↦ ground (arith, off, push_jobs-pushed_ends jobs ts)
      | inl on ↦ elim (Option-cases (expand (nodes_of job))) [
        | inl e ↦ ground (arith, on, e)
        | inr (names, e) ↦
            let ts' = push_names names (deadline job) ts in
            ground (
              arith,
              on,
              e,
              push_jobs-pushed_ends jobs ts,
              push_jobs-pushed_ends jobs ts',
              push_names-push_all names (deadline job) ts,
              appended ts (with_time (deadline job) names) (pushed_ends jobs),
            )
      ]
    ]

    -- Both are errors, or they agree on the latest end of each pod's node.
    abbrev Same : Option (List (String × ℤ)) → Option (List (String × ℤ)) → Type 0
    Same none none = Unit
    Same none (some l) = ⊥
    Same (some l) none = ⊥
    Same (some l) (some l') = (k : String) → is_node_of pods k ≡ true → latest k l ≡ latest k l'

    Same-skip :
        (xs : List (String × ℤ)) (a b : Option (List (String × ℤ)))
        → ((k : String) → is_node_of pods k ≡ true → latest k xs ≡ none)
        → Same a b
        → Same a (prefixed xs b)
    Same-skip xs none none h e = tt
    Same-skip xs none (some l') h e = elim e [ ]
    Same-skip xs (some l) none h e = elim e [ ]
    Same-skip xs (some l) (some l') h e =
        λ k listed. e k listed ∙ sym (latest-append-none k xs l' (h k listed))

    Same-push :
        (xs : List (String × ℤ)) (a b : Option (List (String × ℤ)))
        → Same a b
        → Same (prefixed xs a) (prefixed xs b)
    Same-push xs none none e = tt
    Same-push xs none (some l') e = elim e [ ]
    Same-push xs (some l) none e = elim e [ ]
    Same-push xs (some l) (some l') e = λ k listed. latest-append-cong k xs l l' (e k listed)

    -- An error that a skipped job's nodes come before is an error for both.
    pushed_ends-Same : (jobs : List Job) → Same (pushed_ends jobs) (job_ends jobs)
    unfolding pushed_ends job_ends latest
    pushed_ends-Same [] = λ k listed. refl
    pushed_ends-Same (job ∷ jobs) = elim (Bool-cases job.running) [
      | inr off ↦ rw off (pushed_ends-Same jobs)
      | inl on ↦ elim (Option-cases (expand (nodes_of job))) [
        | inl e ↦ rw on (rw e tt)
        | inr (names, e) ↦
            let xs = with_time (deadline job) names in
            let rest = pushed_ends-Same jobs in
            elim (Bool-cases (any (is_node_of pods) names)) [
              | inl touched ↦
                  rw on (rw e (rw touched (Same-push xs (pushed_ends jobs) (job_ends jobs) rest)))
              | inr untouched ↦ rw on (
                  rw e (
                    rw untouched (
                      Same-skip xs (pushed_ends jobs) (job_ends jobs)
                        (λ k listed. latest-untouched pods k (deadline job) names listed untouched)
                        rest)))
            ]
      ]
    ]

module _ {S : Type 0} (expand : String → Option (List String)) (clusters : Dict (SlurmClient S))
    (nodeset : NodeSet) (pods : List Pod) where
  -- What `GetNodeDeadlines` returns, given the ends of the running jobs: an error where the nodes
  -- of one cannot be told, and else a store that has for each pod's node the latest end on it.
  abbrev pub Deadlines : Option (List (String × ℤ)) → Result KeyedStore → Type 0
  Deadlines none r = r ≡ err (message "hostlist")
  Deadlines (some ends) r =
      (ts : KeyedStore) × (r ≡ ok ts)
      × ((k : String) → is_node_of pods k ≡ true → peek k ts ≡ or_zero (latest k ends))

  abbrev result_of : Option KeyedStore → Result KeyedStore
  result_of none = err (message "hostlist")
  result_of (some ts) = ok ts

  Same-Deadlines :
      (pushed ends : Option (List (String × ℤ)))
      → Same expand pods pushed ends
      → Deadlines ends (result_of (pushed_onto expand pods (new_store greater) pushed))
  unfolding peek lookup
  Same-Deadlines none none h = refl
  Same-Deadlines none (some l) h = elim h [ ]
  Same-Deadlines (some l) none h = elim h [ ]
  Same-Deadlines (some l) (some ends) h = (
    push_all l (new_store greater),
    refl,
    λ k listed.
        ap value_of (lookup-push_all l k (new_store greater) refl)
        ∙ value-join (latest k l)
        ∙ ap or_zero (h k listed),
  )

  result-get_node_deadlines :
      (client : SlurmClient S) (jobs : List Job) (s s' : S)
      → lookup_client clusters nodeset ≡ some client
      → client.list_jobs s ≡ (ok jobs, s')
      → (get_node_deadlines expand clusters nodeset pods s).0
        ≡ result_of (pushed_onto expand pods (new_store greater) (pushed_ends expand pods jobs))
  unfolding get_node_deadlines
  result-get_node_deadlines client jobs s s' found listed =
      ground (arith, found, listed, push_jobs-pushed_ends expand pods jobs (new_store greater))

  -- For a NodeSet that has a client, whose list of jobs returns: the result is the specification's,
  -- over the ends of all running jobs, also of those that `GetNodeDeadlines` skips. In particular
  -- it is an error exactly where the nodes of some running job cannot be told.
  pub get_node_deadlines-Deadlines :
      (client : SlurmClient S) (jobs : List Job) (s s' : S)
      → lookup_client clusters nodeset ≡ some client
      → client.list_jobs s ≡ (ok jobs, s')
      → Deadlines (job_ends expand jobs) (get_node_deadlines expand clusters nodeset pods s).0
  get_node_deadlines-Deadlines client jobs s s' found listed =
      rw (result-get_node_deadlines client jobs s s' found listed) (
        Same-Deadlines (pushed_ends expand pods jobs) (job_ends expand jobs)
          (pushed_ends-Same expand pods jobs))
