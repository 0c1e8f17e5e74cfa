-- ===== src/Tools/Audit.antt =====
-- The answers and the audit trail of bat/services/agent/tools.py.
use bat_ai.Prelude.{ℕ, ◌≡◌, refl, true, List, [], ◌∷◌, ◌++◌, none, arith, string_eq}
use bat_ai.Prelude.Dict.{get}
use bat_ai.Prelude.Text.{Text, codes}
use bat_ai.Domain.Conversation.{ToolResult}
use bat_ai.Domain.Errors.{BatError, error, not_found}
use bat_ai.Tools.Policy.{ToolInvocation, ToolPolicy}
use bat_ai.Tools.Arguments.{is_empty}
use bat_ai.Tools.Registry.{Outcome, returns, raises, times_out, crashes, cancelled, Tool, Registry}
use bat_ai.Tools.Executor.{
  Admission, admitted, refused, AuditRecord, Python, admit, settle, run_admitted, audit,
  audit_record, denial_of, execute, refusal,
}

-- The call is answered by one result, and the trail has one more record, of that call and that
-- result; or it was cancelled, and the trail is as it was.
abbrev pub IsReported :
    {W : Type 0}
    → ToolInvocation
    → List AuditRecord
    → Outcome ToolResult × List AuditRecord × W
    → Type 0
IsReported i log (returns r, log', w') =
    (r.call_id ≡ i.call_id)
    × (r.name ≡ i.name)
    × ((a : AuditRecord) × (log' ≡ log ++ a ∷ [])
        × (a.call_id ≡ i.call_id)
        × (a.tenant_id ≡ i.context.tenant_id)
        × (a.tool_name ≡ i.name)
        × (a.is_error ≡ r.is_error))
IsReported i log (cancelled, log', w') = log' ≡ log
IsReported i log (other, log', w') = ⊥

module _ {W : Type 0} (py : Python W) where
  -- What `run_admitted` gives: a result for the call, or a cancellation.
  Answers : ToolInvocation → Outcome ToolResult → Type 0
  Answers i (returns r) = (r.call_id ≡ i.call_id) × (r.name ≡ i.name)
  Answers i cancelled = Unit
  Answers i other = ⊥

  settle-Answers :
      (t : Tool W) (i : ToolInvocation) (o : Outcome Text) (ms : ℕ)
      → Answers i (settle py t.definition i o ms)
  unfolding settle Answers
  settle-Answers t i (returns output) ms = (refl, refl)
  settle-Answers t i (raises e) ms = (refl, refl)
  settle-Answers t i times_out ms = (refl, refl)
  settle-Answers t i crashes ms = (refl, refl)
  settle-Answers t i cancelled ms = tt

  run_admitted-Answers :
      (a : Admission W) (i : ToolInvocation) (w : W) → Answers i (run_admitted py a i w).0
  unfolding run_admitted Answers
  run_admitted-Answers (admitted t) i w = settle-Answers t i (t.run i w).0 _
  run_admitted-Answers (refused e d) i w = (refl, refl)

  audit-IsReported :
      (i : ToolInvocation) (denial : Text) (o : Outcome ToolResult) (w : W) (log : List AuditRecord)
      → Answers i o
      → IsReported i log (audit py i denial (o, w) log)
  unfolding audit audit_record Answers
  audit-IsReported i denial (returns r) w log h =
      (h.0, h.1, (audit_record py i denial r w, refl, refl, refl, refl, refl))
  audit-IsReported i denial cancelled w log h = refl
  audit-IsReported i denial (raises e) w log h = absurd h
  audit-IsReported i denial times_out w log h = absurd h
  audit-IsReported i denial crashes w log h = absurd h

  -- The executor raises nothing: a call that is not cancelled comes back as one result, with the
  -- call's own id and name, and adds exactly one record to the audit trail, with the call's id, the
  -- tenant of its context, the tool's name and the result's error flag; a cancelled call adds none.
  pub execute-IsReported :
      (tools : Registry W) (i : ToolInvocation) (p : ToolPolicy) (log : List AuditRecord) (w : W)
      → IsReported i log (execute py tools i p log w)
  unfolding execute
  execute-IsReported tools i p log w =
      let a = admit py tools i p in
      audit-IsReported i (denial_of py a) (run_admitted py a i w).0 (run_admitted py a i w).1 log
        (run_admitted-Answers a i w)

  unregistered : ToolInvocation → BatError
  unregistered i = error not_found (codes "tool " ++ (py.repr i.name ++ codes " is not registered"))

  admit-unregistered :
      (tools : Registry W) (i : ToolInvocation) (p : ToolPolicy)
      → get tools i.name ≡ none
      → admit py tools i p ≡ refused (unregistered i) []
  unfolding admit unregistered
  admit-unregistered tools i p h = ground arith

  -- A call of a name that no tool is registered under is answered by an error, and its audit record
  -- says that the call was allowed.
  pub execute-unregistered :
      (tools : Registry W) (i : ToolInvocation) (p : ToolPolicy) (log : List AuditRecord) (w : W)
      → get tools i.name ≡ none
      → (a : AuditRecord) × ((execute py tools i p log w).1 ≡ log ++ a ∷ [])
        × (a.tool_name ≡ i.name)
        × (a.is_error ≡ true)
        × (a.allowed ≡ true)
        × (a.denial_reason ≡ [])
  unfolding execute run_admitted denial_of audit audit_record is_empty
  execute-unregistered tools i p log w h = (
    audit_record py i [] (refusal py (unregistered i) i w) w,
    rw (admit-unregistered tools i p h),
    refl,
    refl,
    refl,
    refl,
  )
