-- ===== src/Tools/Safety.antt =====
-- What the executor of bat/services/agent/tools.py lets run, and what it hands back.
use bat_ai.Prelude.{
  some-eq_of_some-eq, ◌↔◌, ◌<◌, ◌≡◌, refl, ap, sym, ◌∙◌, ◌⊎◌, inl, inr, true, List, [], ◌∷◌, none,
  some, arith, string_eq, all, Option-cases,
}
use bat_ai.Prelude.Dict.{get}
use bat_ai.Prelude.Text.{Text}
use bat_ai.Domain.Conversation.{ToolResult}
use bat_ai.Domain.Errors.{BatError}
use bat_ai.Domain.Tenancy.{has, missing_scopes}
use bat_ai.Domain.Tenancy.Checks.{missing_scopes-nil_iff}
use bat_ai.Tools.Policy.{
  ToolInvocation, ToolPolicy, IsPermitted, host, reach, permits, permits-none_iff,
}
use bat_ai.Tools.Arguments.{validate_arguments, conforms, validate_arguments-nil_iff, is_empty}
use bat_ai.Tools.Registry.{Outcome, returns, Tool, Registry}
use bat_ai.Tools.Executor.{
  Admission, admitted, refused, AuditRecord, Python, admit, check_arguments, check_scopes,
  check_policy, run_admitted, execute, audit, denial_of,
}

-- The five gates that a call passes before its tool runs.
pub record MayRun {W : Type 0} (tools : Registry W) (i : ToolInvocation) (p : ToolPolicy)
    (t : Tool W) : Type 0 where
  pub registered : get tools i.name ≡ some t
  pub permitted : IsPermitted p t.definition
  pub scoped : all (has i.context.principal) t.definition.required_scopes ≡ true
  pub conforming : conforms t.definition.parameters i.arguments ≡ true

is_empty-nil : {A : Type 0} (xs : List A) → is_empty xs ≡ true → xs ≡ []
unfolding is_empty
is_empty-nil [] h = refl
is_empty-nil (x ∷ xs) h = cc

-- The world is untouched, and the answer is an error for the call.
abbrev pub IsRefusal :
    {W : Type 0} → ToolInvocation → W → Outcome ToolResult × List AuditRecord × W → Type 0
IsRefusal i w (returns r, log, w') = (w' ≡ w) × (r.is_error ≡ true) × (r.call_id ≡ i.call_id)
IsRefusal i w (other, log, w') = ⊥

module _ {W : Type 0} (py : Python W) where
  check_arguments-admitted :
      (t : Tool W) (i : ToolInvocation) {u : Tool W}
      → check_arguments py t i ≡ admitted u
      → (u ≡ t) × (validate_arguments t.definition.parameters i.arguments ≡ [])
  unfolding check_arguments
  check_arguments-admitted t i h =
      ground (arith, is_empty-nil (validate_arguments t.definition.parameters i.arguments))

  check_scopes-admitted :
      (t : Tool W) (i : ToolInvocation) {u : Tool W}
      → check_scopes py t i ≡ admitted u
      → (missing_scopes i.context.principal t.definition.required_scopes ≡ [])
        × (check_arguments py t i ≡ admitted u)
  unfolding check_scopes
  check_scopes-admitted t i h =
      ground (arith, is_empty-nil (missing_scopes i.context.principal t.definition.required_scopes))

  check_policy-admitted :
      (t : Tool W) (i : ToolInvocation) (p : ToolPolicy) {u : Tool W}
      → check_policy py t i p ≡ admitted u
      → (permits p t.definition ≡ none) × (check_scopes py t i ≡ admitted u)
  unfolding check_policy
  check_policy-admitted t i p h = ground arith

  admit-found :
      (tools : Registry W) (i : ToolInvocation) (p : ToolPolicy) {t : Tool W}
      → admit py tools i p ≡ admitted t
      → (u : Tool W) × (get tools i.name ≡ some u) × (check_policy py u i p ≡ admitted t)
  unfolding admit
  admit-found tools i p {t} h = elim (Option-cases (get tools i.name)) [
    | inl none_there ↦ absurd (ground arith)
    | inr (u, there) ↦ (u, there, ground arith)
  ]

  pub admit-MayRun :
      (tools : Registry W) (i : ToolInvocation) (p : ToolPolicy) {t : Tool W}
      → admit py tools i p ≡ admitted t
      → MayRun tools i p t
  admit-MayRun tools i p {t} h =
      let (u, there, policy) = admit-found tools i p h in
      let (permitted, scopes) = check_policy-admitted u i p policy in
      let (none_missing, args) = check_scopes-admitted u i scopes in
      let (same, no_problem) = check_arguments-admitted u i args in
      record {
        registered = there ∙ ap some (sym same);
        permitted = rw same ((permits-none_iff p u.definition).0 permitted);
        scoped = rw same ((missing_scopes-nil_iff _ u.definition.required_scopes).0 none_missing);
        conforming =
            rw same ((validate_arguments-nil_iff u.definition.parameters i.arguments).0 no_problem);
      }

  -- Conversely a call that passes every gate is admitted.
  MayRun-admit :
      (tools : Registry W) (i : ToolInvocation) (p : ToolPolicy) (t : Tool W)
      → MayRun tools i p t
      → admit py tools i p ≡ admitted t
  unfolding admit check_policy check_scopes check_arguments is_empty
  MayRun-admit tools i p t m = ground (
    arith,
    m.registered,
    (permits-none_iff p t.definition).1 m.permitted,
    (missing_scopes-nil_iff i.context.principal t.definition.required_scopes).1 m.scoped,
    (validate_arguments-nil_iff t.definition.parameters i.arguments).1 m.conforming,
  )

  -- The executor admits a call to a tool, which is then run, exactly when the call passes every
  -- gate: its name is that tool's in the registry, the policy permits the tool, the principal
  -- holds the tool's scopes, and the arguments conform.
  pub admit-admitted_iff :
      (tools : Registry W) (i : ToolInvocation) (p : ToolPolicy) (t : Tool W)
      → (admit py tools i p ≡ admitted t) ↔ MayRun tools i p t
  admit-admitted_iff tools i p t = (λ h. admit-MayRun tools i p h, MayRun-admit tools i p t)

  Admission-cases :
      (a : Admission W)
      → ((t : Tool W) × (a ≡ admitted t)) ⊎ ((e : BatError) × (d : Text) × (a ≡ refused e d))
  Admission-cases (admitted t) = inl (t, refl)
  Admission-cases (refused e d) = inr (e, d, refl)

  run_refused :
      (a : Admission W) (i : ToolInvocation) (log : List AuditRecord) (w : W) {e : BatError}
      {d : Text}
      → a ≡ refused e d
      → IsRefusal i w (audit py i (denial_of py a) (run_admitted py a i w) log)
  unfolding audit run_admitted denial_of
  run_refused a i log w h = rw h (refl, refl, refl)

  run_world :
      (a : Admission W) (i : ToolInvocation) (log : List AuditRecord) (w : W) {t : Tool W}
      → a ≡ admitted t
      → (audit py i (denial_of py a) (run_admitted py a i w) log).2 ≡ (t.run i w).1
  unfolding audit run_admitted
  run_world a i log w {t} h = rw h (ground arith)

  -- Whatever call arrives, either it passes every gate and the world is what its tool's run left, or
  -- the world is untouched and the answer is an error for that call.
  pub execute_gate :
      (tools : Registry W) (i : ToolInvocation) (p : ToolPolicy) (log : List AuditRecord) (w : W)
      → ((t : Tool W) × MayRun tools i p t × ((execute py tools i p log w).2 ≡ (t.run i w).1))
        ⊎ IsRefusal i w (execute py tools i p log w)
  unfolding execute
  execute_gate tools i p log w = elim (Admission-cases (admit py tools i p)) [
    | inl (t, h) ↦ inl (t, admit-MayRun tools i p h, run_world (admit py tools i p) i log w h)
    | inr (e, d, h) ↦ inr (run_refused (admit py tools i p) i log w h)
  ]

  -- A tool with the authority of the host is never run under a policy whose ceiling is lower: its
  -- call leaves the world untouched and is answered by an error.
  pub execute_host :
      (tools : Registry W) (i : ToolInvocation) (p : ToolPolicy) (log : List AuditRecord) (w : W)
      (t : Tool W)
      → get tools i.name ≡ some t
      → t.definition.authority ≡ host
      → reach p.max_authority < reach host
      → IsRefusal i w (execute py tools i p log w)
  execute_host tools i p log w t there is_host ceiling = elim (execute_gate tools i p log w) [
    | inl (u, m, _) ↦ absurd (
        omega (
          arith,
          m.permitted.within_reach,
          ap reach is_host,
          ap (λ (x : Tool W). reach x.definition.authority)
              (some-eq_of_some-eq t u (sym there ∙ m.registered)),
        ))
    | inr refusal ↦ refusal
  ]
