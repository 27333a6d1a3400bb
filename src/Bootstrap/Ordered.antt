-- ===== src/Bootstrap/Ordered.antt =====
-- The order in which `applyRenderedApps` of kubeBootstrap.go runs programs.
use becloudless.Prelude.{
  ℕ, ◌≤◌, String, Bool, true, ◌&&◌, ◌==◌, Option, List, [], ◌∷◌, ◌≡◌, refl, arith, leb,
  if◌then◌else◌, ok, err, Outcome-cases, if_ind, subst, sym, inl, inr, split_on,
}
use becloudless.Json.{Fields}
use becloudless.Bootstrap.{Docs, nested_text}
use becloudless.Bootstrap.Commands.{
  Call, kubectl, helm_release, flux_kustomization, Answers, Run, Done, ◌then◌, run, end_run,
  content_of, apply_docs, wait_crds, apply_git_kustomization, crds_of, kustomize_target,
}
use becloudless.Bootstrap.Plan.{RenderedApp, FluxResource, GitKustomization, Plan, plan_apps}
use becloudless.Bootstrap.Apply.{
  apply_git_kustomizations, apply_helm_releases, apply_kustomizations, apply_plan,
  apply_rendered_apps,
}

abbrev second : List String → String
second [] = ""
second (s ∷ []) = ""
second (s ∷ t ∷ list) = t

-- The stage of a call: the namespaces are applied as documents, the kustomizations of git
-- repositories and the wait for their CRDs come after them.
abbrev pub stage : Call → ℕ
stage (kubectl args input) = if second args == "-f" then 0 else 1
stage (helm_release folder ref) = 2
stage (flux_kustomization folder ref) = 3

abbrev pub upto : ℕ → List Call → Bool
upto n [] = true
upto n (call ∷ calls) = leb (stage call) n && upto n calls

-- No call has one of a later stage before it; the last call comes first.
abbrev pub in_stages : List Call → Bool
in_stages [] = true
in_stages (call ∷ calls) = upto (stage call) calls && in_stages calls

-- The calls so far are in order, and none is of a stage after `n`.
abbrev pub Reached : ℕ → List Call → Type 0
Reached n calls = (upto n calls ≡ true) × (in_stages calls ≡ true)

upto_mono : (n m : ℕ) (calls : List Call) → n ≤ m → upto n calls ≡ true → upto m calls ≡ true
upto_mono n m [] h u = refl
upto_mono n m (call ∷ calls) h u = ground (arith, upto_mono n m calls h)

pub Reached-mono : (n m : ℕ) (calls : List Call) → n ≤ m → Reached n calls → Reached m calls
Reached-mono n m calls h (u, s) = (upto_mono n m calls h u, s)

pub Reached-cons :
    (call : Call) (calls : List Call)
    → Reached (stage call) calls
    → Reached (stage call) (call ∷ calls)
Reached-cons call calls (u, s) = (ground (arith), ground (arith))

pub then-Reached :
    {A B : Type 0} (n m : ℕ) (first : Run A) (f : A → List Call → Run B)
    → n ≤ m
    → Reached n (first.1)
    → ((a : A) (calls : List Call) → Reached n calls → Reached m ((f a calls).1))
    → Reached m ((first then f).1)
then-Reached n m (ok a, calls) f h r next = next a calls r
then-Reached n m (err e, calls) f h r next = Reached-mono n m calls h r

end_run-calls : (r : Run String) → (end_run r).1 ≡ r.1
unfolding end_run
end_run-calls (ok output, calls) = refl
end_run-calls (err e, calls) = refl

module _ (answers : Answers) where
  run-Reached :
      (n : ℕ) (call : Call) (calls : List Call)
      → stage call ≡ n
      → Reached n calls
      → Reached n ((run answers call calls).1)
  unfolding run
  run-Reached n call calls e r =
      subst (λ x. Reached x (call ∷ calls)) e
        (Reached-cons call calls (subst (λ x. Reached x calls) (sym e) r))

  end_run-Reached :
      (n : ℕ) (call : Call) (calls : List Call)
      → stage call ≡ n
      → Reached n calls
      → Reached n ((end_run (run answers call calls)).1)
  end_run-Reached n call calls e r =
      subst (Reached n) (sym (end_run-calls (run answers call calls)))
        (run-Reached n call calls e r)

  apply_docs-Reached :
      (marshal : Fields → Option String) (docs : Docs) (calls : List Call)
      → Reached 0 calls
      → Reached 0 ((apply_docs answers marshal docs calls).1)
  unfolding apply_docs
  apply_docs-Reached marshal [] calls r = r
  apply_docs-Reached marshal (doc ∷ docs) calls r =
      elim (Outcome-cases (content_of marshal (doc ∷ docs))) [
        | inl (e, m) ↦ rw m r
        | inr (content, m) ↦ rw m (end_run-Reached 0 _ calls refl r)
      ]

  wait_crds-Reached :
      (crds : List String) (calls : List Call)
      → Reached 1 calls
      → Reached 1 ((wait_crds answers crds calls).1)
  unfolding wait_crds
  wait_crds-Reached [] calls r = r
  wait_crds-Reached (crd ∷ crds) calls r = end_run-Reached 1 _ calls refl r

  apply_git_kustomization-Reached :
      (ks repository : Fields) (calls : List Call)
      → Reached 1 calls
      → Reached 1 ((apply_git_kustomization answers ks repository calls).1)
  unfolding apply_git_kustomization
  apply_git_kustomization-Reached ks repository calls r =
      let url = nested_text repository ("spec" ∷ "url" ∷ []) in
      if_ind (λ (x : Run Done). Reached 1 (x.1)) (url == "") (λ e. r)
        (λ e.
          then-Reached 1 1
            (run answers
              (kubectl
                ("apply"
                  ∷ "--server-side"
                  ∷ "--force-conflicts"
                  ∷ "-o"
                  ∷ "name"
                  ∷ "-k"
                  ∷ kustomize_target url ks repository
                  ∷ [])
                "")
              calls)
            (λ output more. wait_crds answers (crds_of (split_on "\n" output)) more) (ground arith)
            (run-Reached 1
              (kubectl
                ("apply"
                  ∷ "--server-side"
                  ∷ "--force-conflicts"
                  ∷ "-o"
                  ∷ "name"
                  ∷ "-k"
                  ∷ kustomize_target url ks repository
                  ∷ [])
                "")
              calls refl r)
            (λ output more s. wait_crds-Reached (crds_of (split_on "\n" output)) more s))

  apply_git_kustomizations-Reached :
      (list : List GitKustomization) (calls : List Call)
      → Reached 1 calls
      → Reached 1 ((apply_git_kustomizations answers list calls).1)
  unfolding apply_git_kustomizations
  apply_git_kustomizations-Reached [] calls r = r
  apply_git_kustomizations-Reached (ks ∷ list) calls r =
      then-Reached 1 1 (apply_git_kustomization answers ks.kustomize ks.repository calls)
        (λ ended more. apply_git_kustomizations answers list more) (ground arith)
        (apply_git_kustomization-Reached ks.kustomize ks.repository calls r)
        (λ ended more s. apply_git_kustomizations-Reached list more s)

  apply_helm_releases-Reached :
      (list : List FluxResource) (calls : List Call)
      → Reached 2 calls
      → Reached 2 ((apply_helm_releases answers list calls).1)
  unfolding apply_helm_releases
  apply_helm_releases-Reached [] calls r = r
  apply_helm_releases-Reached (hr ∷ list) calls r =
      then-Reached 2 2 (run answers (helm_release hr.folder hr.ref) calls)
        (λ output more. apply_helm_releases answers list more) (ground arith)
        (run-Reached 2 (helm_release hr.folder hr.ref) calls refl r)
        (λ output more s. apply_helm_releases-Reached list more s)

  apply_kustomizations-Reached :
      (list : List FluxResource) (calls : List Call)
      → Reached 3 calls
      → Reached 3 ((apply_kustomizations answers list calls).1)
  unfolding apply_kustomizations
  apply_kustomizations-Reached [] calls r = r
  apply_kustomizations-Reached (ks ∷ list) calls r =
      then-Reached 3 3 (run answers (flux_kustomization ks.folder ks.ref) calls)
        (λ output more. apply_kustomizations answers list more) (ground arith)
        (run-Reached 3 (flux_kustomization ks.folder ks.ref) calls refl r)
        (λ output more s. apply_kustomizations-Reached list more s)

  apply_plan-Reached :
      (marshal : Fields → Option String) (plan : Plan) (calls : List Call)
      → Reached 0 calls
      → Reached 3 ((apply_plan answers marshal plan calls).1)
  unfolding apply_plan
  apply_plan-Reached marshal plan calls r =
      then-Reached 0 3 (apply_docs answers marshal plan.namespaces calls)
        (λ a after. apply_git_kustomizations answers plan.git_kustomizations after then λ b more.
          apply_helm_releases answers plan.helm_releases more then λ c most.
          apply_kustomizations answers plan.kustomizations most)
        (ground arith) (apply_docs-Reached marshal plan.namespaces calls r)
        (λ a after s.
          then-Reached 1 3 (apply_git_kustomizations answers plan.git_kustomizations after)
            (λ b more. apply_helm_releases answers plan.helm_releases more then λ c most.
              apply_kustomizations answers plan.kustomizations most)
            (ground arith)
            (apply_git_kustomizations-Reached plan.git_kustomizations after
              (Reached-mono 0 1 after (ground arith) s))
            (λ b more t.
              then-Reached 2 3 (apply_helm_releases answers plan.helm_releases more)
                (λ c most. apply_kustomizations answers plan.kustomizations most) (ground arith)
                (apply_helm_releases-Reached plan.helm_releases more
                  (Reached-mono 1 2 more (ground arith) t))
                (λ c most u.
                  apply_kustomizations-Reached plan.kustomizations most
                    (Reached-mono 2 3 most (ground arith) u))))

-- Whatever programs fail, and where, the calls of the apply step are in order: every namespace before
-- the first kustomization of a git repository, these before the helm releases, and these before the
-- kustomizations of OCI repositories.
pub apply_rendered_apps-in_stages :
    (answers : Answers) (marshal : Fields → Option String) (writable : String → Bool)
    (tmp_dir : String) (apps : List RenderedApp)
    → in_stages ((apply_rendered_apps answers marshal writable tmp_dir apps []).1) ≡ true
unfolding apply_rendered_apps
apply_rendered_apps-in_stages answers marshal writable tmp_dir apps =
    elim (Outcome-cases (plan_apps marshal writable tmp_dir apps)) [
      | inl (e, m) ↦ rw m
      | inr (plan, m) ↦ rw m (apply_plan-Reached answers marshal plan [] (refl, refl)).1
    ]
