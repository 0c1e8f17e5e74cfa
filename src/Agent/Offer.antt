-- ===== src/Agent/Offer.antt =====
-- The tools that bat/services/agent/loop.py offers to the model, against the checks of the executor.
use bat_ai.Prelude.{
  ◌≡◌, ap, ◌∙◌, true, List, [], ◌∷◌, some, String, if_cases, if_rule, string_eq, all, All, keep,
  map, leb, arith,
}
use bat_ai.Prelude.Dict.{Dict, get, values, HasDistinctKeys, Entries, get-own, zip-Entries}
use bat_ai.Domain.Tenancy.{has}
use bat_ai.Tools.Policy.{ToolSpec, to_spec, IsPermitted, permits-none_iff}
use bat_ai.Tools.Registry.{Tool, Registry, specs_for, is_permitted}
use bat_ai.Agent.Events.{RunRequest}
use bat_ai.Agent.Prompt.{Runner, advertise, may_offer}

-- The registered tool of the name passes the checks of the executor, up to those of the arguments.
pub record IsRunnable {W : Type 0} (q : RunRequest) (tools : Registry W) (name : String)
    : Type 0 where
  pub tool : Tool W
  pub registered : get tools name ≡ some tool
  pub permitted : IsPermitted q.policy tool.definition
  pub scoped : all (has q.context.principal) tool.definition.required_scopes ≡ true

module _ {W : Type 0} (r : Runner W) (q : RunRequest) (tools : Registry W) where
  -- A tool that the policy permits, registered under its own name.
  IsPermittedSpec : ToolSpec → Type 0
  IsPermittedSpec spec =
      (t : Tool W) × (get tools spec.name ≡ some t) × IsPermitted q.policy t.definition

  permitted_head :
      (name : String) (t : Tool W)
      → (get tools name ≡ some t) × (t.definition.name ≡ name)
      → is_permitted q.policy t ≡ true
      → IsPermittedSpec (to_spec t.definition)
  unfolding IsPermittedSpec to_spec
  permitted_head name t h fits = (
    t,
    ap (λ n. get tools n) h.1 ∙ h.0,
    (permits-none_iff q.policy t.definition).0 (ground (arith, fits)),
  )

  specs_of :
      (d : Dict String (Tool W))
      → Entries (λ name t. (get tools name ≡ some t) × (t.definition.name ≡ name)) d
      → All IsPermittedSpec
          (map (λ t. to_spec t.definition) (keep (is_permitted q.policy) (values d)))
  specs_of [] h = tt
  specs_of ((name, t) ∷ d) h =
      if_cases (λ (ts : List (Tool W)). All IsPermittedSpec (map (λ t'. to_spec t'.definition) ts))
        (is_permitted q.policy t) _ _ (λ fits. (permitted_head name t h.0 fits, specs_of d h.1))
        (λ unfit. specs_of d h.1)

  scoped_head :
      (spec : ToolSpec)
      → IsPermittedSpec spec
      → may_offer r tools q.context spec ≡ true
      → IsRunnable q tools spec.name
  unfolding may_offer IsPermittedSpec
  scoped_head spec (t, there, fits) h = record {
    tool = t;
    registered = there;
    permitted = fits;
    scoped = ground (arith, there);
  }

  offered :
      (specs : List ToolSpec)
      → All IsPermittedSpec specs
      → All (λ spec. IsRunnable q tools spec.name) (keep (may_offer r tools q.context) specs)
  offered [] h = tt
  offered (spec ∷ specs) h =
      if_cases (All (λ spec. IsRunnable q tools spec.name)) (may_offer r tools q.context spec) _ _
        (λ fits. (scoped_head spec h.0 fits, offered specs h.1)) (λ unfit. offered specs h.1)

  -- Where each tool is registered once and under its own name, every tool that is offered to the
  -- model is registered, permitted by the policy, and within the scopes of the principal.
  pub advertise-Runnable :
      r.registry ≡ some tools
      → HasDistinctKeys tools
      → Entries (λ name t. t.definition.name ≡ name) tools
      → All (λ spec. IsRunnable q tools spec.name) (advertise r q)
  unfolding advertise specs_for
  advertise-Runnable there distinct own_names = rw there (
      if_rule (All (λ spec. IsRunnable q tools spec.name)) (leb q.policy.max_calls_per_run 0) _ _ tt
        (offered _ (specs_of tools (zip-Entries _ _ tools (get-own tools distinct) own_names))))
