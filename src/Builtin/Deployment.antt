-- ===== src/Builtin/Deployment.antt =====
-- What the tools of bat/tools/builtin.py may do in a deployment: under the policies that
-- bat/settings.py admits, and in the memory of one tenant.
use bat_ai.Prelude.{
  ◌≡◌, refl, ◌∙◌, sym, ap, ◌⊎◌, inl, inr, true, false, List, [], ◌∷◌, Bool-cases, Option, none,
  some, String, arith, string_eq, contains, ◌==◌, some-eq_of_some-eq,
}
use bat_ai.Prelude.Dict.{get, put, Dict}
use bat_ai.Prelude.Text.{Text}
use bat_ai.Tools.Policy.{host, reach, ToolInvocation}
use bat_ai.Tools.Registry.{
  Tool, Registry, register, Outcome, returns, raises, times_out, crashes, cancelled,
}
use bat_ai.Tools.Executor.{Python, execute, AuditRecord}
use bat_ai.Tools.Safety.{IsRefusal, execute_gate}
use bat_ai.Domain.Conversation.{Value}
use bat_ai.Rag.Vectors.{Spaces, MemoryKind, Query}
use bat_ai.Rag.Chunking.{Chunker}
use bat_ai.Rag.Pipeline.{retrieve, ingest, forget_tenant}
use bat_ai.Rag.Isolation.{retrieve-isolated}
use bat_ai.Api.Turn.{policy_for}
use bat_ai.Config.Settings.{Settings, is_production}
use bat_ai.Config.Checks.{faults}
use bat_ai.Config.Hardening.{faults-nil_iff, turn_settings}
use bat_ai.Builtin.Calculator.{follow}
use bat_ai.Builtin.Tools.{
  Parts, Site, SearchBounds, calculator, memory_search, python_exec, build_default_tools,
  register_all, saas_safe_tools, run_memory_search, argument, query_of, answer,
}

follow_ext :
    {A B : Type 0} (o : Outcome A) (f g : A → Outcome B)
    → ((a : A) → f a ≡ g a)
    → follow o f ≡ follow o g
follow_ext (returns a) f g h = h a
follow_ext (raises e) f g h = refl
follow_ext times_out f g h = refl
follow_ext crashes f g h = refl
follow_ext cancelled f g h = refl

module _ {F V W : Type 0} (parts : Parts F V W) where
  -- The registry of the tools, with a memory or without.
  abbrev pub builtin : Option SearchBounds → Registry (Site V W)
  builtin none = ("calculator", calculator parts) ∷ ("python_exec", python_exec parts) ∷ []
  builtin (some bounds) =
      ("calculator", calculator parts)
      ∷ ("python_exec", python_exec parts)
      ∷ ("memory_search", memory_search parts bounds)
      ∷ []

  builtin_lem :
      (memory : Option SearchBounds)
      → register_all [] (build_default_tools parts memory) ≡ some (builtin memory)
  unfolding register_all register build_default_tools put get calculator python_exec memory_search
  builtin_lem none = refl
  builtin_lem (some bounds) = refl

  -- Every tool of the registry is safe to share or reaches the host.
  builtin-safe :
      (memory : Option SearchBounds) (name : String) (t : Tool (Site V W))
      → get (builtin memory) name ≡ some t
      → (contains name saas_safe_tools ≡ true) ⊎ (t ≡ python_exec parts)
  unfolding get
  builtin-safe memory name t h = elim (Bool-cases ("python_exec" == name)) [
    | inr other ↦ inl (listed memory name t other h)
    | inl same ↦ elim (Bool-cases ("calculator" == name)) [
      | inl calc ↦ inl (ground arith)
      | inr other ↦ inr (some-eq_of_some-eq t _ (sym h ∙ found memory name same other))
    ]
  ]
    where
      listed :
          (memory : Option SearchBounds) (name : String) (t : Tool (Site V W))
          → ("python_exec" == name) ≡ false
          → get (builtin memory) name ≡ some t
          → contains name saas_safe_tools ≡ true
      listed none name t other h = ground arith
      listed (some bounds) name t other h = ground arith

      found :
          (memory : Option SearchBounds) (name : String)
          → ("python_exec" == name) ≡ true
          → ("calculator" == name) ≡ false
          → get (builtin memory) name ≡ some (python_exec parts)
      found none name same other = rw (other, same) refl
      found (some bounds) name same other = rw (other, same) refl

  reach_python :
      (t : Tool (Site V W)) → t ≡ python_exec parts → reach t.definition.authority ≡ reach host
  unfolding python_exec
  reach_python t h = ap (λ (u : Tool (Site V W)). reach u.definition.authority) h

  -- In production, a call of a built-in tool runs only a tool that is safe to share, the calculator or
  -- the search of memory: whatever settings are accepted and whatever tools they enable, any other
  -- call, one that would run a program above all, leaves the world untouched and is answered by an
  -- error.
  pub faults-saas_safe :
      (py : Python (Site V W)) (s : Settings) (memory : Option SearchBounds)
      (tools : Registry (Site V W)) (i : ToolInvocation) (log : List AuditRecord) (w : Site V W)
      → faults s ≡ []
      → is_production s.environment ≡ true
      → register_all [] (build_default_tools parts memory) ≡ some tools
      → (contains i.name saas_safe_tools ≡ true)
        ⊎ IsRefusal i w (execute py tools i (policy_for (turn_settings s)) log w)
  unfolding policy_for
  faults-saas_safe py s memory tools i log w accepted p registered =
      elim (execute_gate py tools i (policy_for (turn_settings s)) log w) [
        | inr refused ↦ inr refused
        | inl (t, m, _) ↦
            let same : builtin memory ≡ tools =
              some-eq_of_some-eq _ _ (sym (builtin_lem memory) ∙ registered) in
            elim (builtin-safe memory i.name t (ap (λ d. get d i.name) same ∙ m.registered)) [
              | inl safe ↦ inl safe
              | inr python ↦ absurd (
                  omega (
                    arith,
                    m.permitted.within_reach,
                    reach_python t python,
                    (((faults-nil_iff s).0 accepted).1 p).off_host,
                  ))
            ]
      ]

  memory_search-retrieve :
      (bounds : SearchBounds) (i : ToolInvocation) (s t : Spaces V)
      → ((q : Query)
          → retrieve parts.embedding s i.context.tenant_id q
            ≡ retrieve parts.embedding t i.context.tenant_id q)
      → run_memory_search parts bounds i s ≡ run_memory_search parts bounds i t
  unfolding run_memory_search
  memory_search-retrieve bounds i s t h =
      follow_ext (argument i "query") _ _
        λ query. ap (answer parts query) (h (query_of parts bounds query))

  -- Whatever the model asks the search for, it sees nothing of another tenant: the answer to the call
  -- is the same whatever documents another tenant has stored or dropped in between.
  pub memory_search-isolated :
      (bounds : SearchBounds) (i : ToolInvocation) (digest : Text → String) (chunker : Chunker)
      (now : String) (s : Spaces V) (foreign : String) (text : Text) (kind : MemoryKind)
      (source : Option Text) (metadata : Dict String Value)
      → (foreign == i.context.tenant_id) ≡ false
      → (run_memory_search parts bounds i
            (ingest parts.embedding digest chunker now s foreign text kind source metadata).1
          ≡ run_memory_search parts bounds i s)
        × (run_memory_search parts bounds i (forget_tenant s foreign)
            ≡ run_memory_search parts bounds i s)
  memory_search-isolated bounds i digest chunker now s foreign text kind source metadata other = (
    memory_search-retrieve bounds i _ s (λ q.
        (retrieve-isolated parts.embedding digest chunker now s foreign i.context.tenant_id text
          kind source metadata q other).0),
    memory_search-retrieve bounds i _ s (λ q.
        (retrieve-isolated parts.embedding digest chunker now s foreign i.context.tenant_id text
          kind source metadata q other).1),
  )
