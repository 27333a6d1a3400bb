-- ===== src/Mutations/Compose.antt =====
-- A pipeline of mutations in two parts.
use becloudless.Prelude.{
  String, ◌≡◌, refl, sym, ◌∙◌, List, [], ◌∷◌, ◌++◌, Dict, copy, lookup, lookup-copy, or_else, arith,
  inl, inr,
}
use becloudless.Prelude.{Outcome-cases}
use becloudless.Json.{Fields}
use becloudless.Mutations.{
  Error, Result, ok, err, ◌>>=◌, MutationResult, Mutation, mutate_from, mutate_schema,
}

bind_assoc :
    {A B C : Type 0} (m : Result A) (f : A → Result B) (g : B → Result C)
    → (m >>= f >>= g) ≡ (m >>= λ a. f a >>= g)
bind_assoc (ok a) f g = refl
bind_assoc (err e) f g = refl

bind-congr :
    {A B : Type 0} (m : Result A) (f g : A → Result B)
    → ((a : A) → f a ≡ g a)
    → (m >>= f) ≡ (m >>= g)
bind-congr (ok a) f g h = h a
bind-congr (err e) f g h = refl

-- the loop over two parts
mutate_from-append :
    (ms ns : List Mutation) (schema : Fields) (args : Dict String)
    → mutate_from (ms ++ ns) schema args
      ≡ (mutate_from ms schema args >>= λ r. mutate_from ns r.schema r.template_args)
unfolding mutate_from
mutate_from-append [] ns schema args = refl
mutate_from-append (m ∷ ms) ns schema args =
    bind-congr (m schema) _ _ (λ r. mutate_from-append ms ns r.schema (copy args r.template_args))
    ∙ sym (bind_assoc (m schema) _ _)

-- What was reported before the loop began counts where the loop reports nothing.
abbrev Extends : Dict String → Dict String → Dict String → Type 0
Extends more args args' =
    (name : String) → lookup name args' ≡ or_else (lookup name args) (lookup name more)

Extends-copy :
    (more args args' new : Dict String)
    → Extends more args args'
    → Extends more (copy args new) (copy args' new)
Extends-copy more args args' new h name =
    ground (arith, lookup-copy name args new, lookup-copy name args' new, h name)

mutate_from-args :
    (ns : List Mutation) (schema : Fields) (more args args' : Dict String) (r : MutationResult)
    → Extends more args args'
    → mutate_from ns schema args ≡ ok r
    → (r' : MutationResult) × (mutate_from ns schema args' ≡ ok r')
      × (r'.schema ≡ r.schema)
      × Extends more r.template_args r'.template_args
unfolding mutate_from
mutate_from-args [] schema more args args' r x h = (
  record { schema = schema; template_args = args' },
  refl,
  ground arith,
  λ name. ground (arith, x name),
)
mutate_from-args (m ∷ ns) schema more args args' r x h = elim (Outcome-cases (m schema)) [
  | inl (e', e) ↦ cc (rw e at h)
  | inr (q, e) ↦ rw e (
      mutate_from-args ns q.schema more (copy args q.template_args) (copy args' q.template_args) r
        (Extends-copy more args args' q.template_args x) (rw e at h))
]

-- A pipeline in two parts, both of which succeed, succeeds: with the schema of the second part run on
-- that of the first, and, under each name, the template argument of the second part if it reports
-- one, else that of the first.
pub mutate_schema-append :
    (ms ns : List Mutation) (schema : Fields) (r₁ r₂ : MutationResult)
    → mutate_schema ms schema ≡ ok r₁
    → mutate_schema ns r₁.schema ≡ ok r₂
    → (r : MutationResult) × (mutate_schema (ms ++ ns) schema ≡ ok r)
      × (r.schema ≡ r₂.schema)
      × ((name : String)
          → lookup name r.template_args
            ≡ or_else (lookup name r₂.template_args) (lookup name r₁.template_args))
unfolding mutate_schema lookup
mutate_schema-append ms ns schema r₁ r₂ h g =
    let (r, e, s, a) =
      mutate_from-args ns r₁.schema r₁.template_args [] r₁.template_args r₂ (λ name. refl) g in
    (r, mutate_from-append ms ns schema [] ∙ rw h e, s, a)

-- The first error ends the pipeline.
pub mutate_schema-append_err :
    (ms ns : List Mutation) (schema : Fields) (e : Error)
    → mutate_schema ms schema ≡ err e
    → mutate_schema (ms ++ ns) schema ≡ err e
unfolding mutate_schema
mutate_schema-append_err ms ns schema e h = mutate_from-append ms ns schema [] ∙ rw h
