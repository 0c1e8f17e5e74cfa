-- ===== src/Rag/Isolation.antt =====
-- What one tenant's memory shows to another, in bat/services/rag/pipeline.py over
-- bat/adapters/vector_memory.py, and what is left of a memory that was dropped.
use bat_ai.Prelude.{
  option_cases, ℕ, ◌≡◌, refl, ap, inl, inr, false, List, [], Option, none, some, String, arith,
  string_eq, ◌==◌, ==_iff, ==_refl, map, length, Bool-cases, if_rule,
}
use bat_ai.Prelude.Dict.{Dict, remove, get_or, get_or-put, get-remove}
use bat_ai.Prelude.Text.{Text}
use bat_ai.Domain.Conversation.{Value}
use bat_ai.Rag.Chunking.{Chunker, is_empty, split}
use bat_ai.Rag.Vectors.{
  MemoryKind, Chunk, Query, prefixed, tenant_namespace, Entry, Spaces, Embedding, upsert, search,
  search_space, drop_namespace, count,
}
use bat_ai.Rag.Pipeline.{relevant, ingest, retrieve, forget_tenant}

tail-eq : (c : _) (s t : String) → String.◌∷◌ c s ≡ String.◌∷◌ c t → s ≡ t
tail-eq c s t h = cc

prefixed-inj : (p s t : String) → prefixed p s ≡ prefixed p t → s ≡ t
unfolding prefixed
prefixed-inj String.[] s t h = h
prefixed-inj (String.◌∷◌ c p) s t h = prefixed-inj p s t (tail-eq c (prefixed p s) (prefixed p t) h)

namespace-ne :
    (tenant other : String)
    → (tenant == other) ≡ false
    → (tenant_namespace tenant == tenant_namespace other) ≡ false
unfolding tenant_namespace
namespace-ne tenant other foreign =
    elim (Bool-cases (prefixed "bat_t_" tenant == prefixed "bat_t_" other)) [
      | inl same ↦ absurd (
          ground (
            arith,
            foreign,
            (==_iff tenant other).1 (prefixed-inj "bat_t_" tenant other ((==_iff _ _).0 same)),
          ))
      | inr different ↦ different
    ]

module _ {V : Type 0} (e : Embedding V) where
  -- What a tenant's calls read of the namespaces.
  abbrev SameSpace : String → Spaces V → Spaces V → Type 0
  SameSpace namespace s t = get_or s namespace [] ≡ get_or t namespace []

  upsert-elsewhere :
      (s : Spaces V) (namespace other : String) (chunks : List Chunk)
      → (namespace == other) ≡ false
      → SameSpace other (upsert e s namespace chunks).1 s
  unfolding upsert
  upsert-elsewhere s namespace other chunks foreign =
      if_rule (λ (x : Option ℕ × Spaces V). SameSpace other x.1 s) (is_empty chunks) (some 0, s) _
        refl
        (option_cases (λ (x : Option ℕ × Spaces V). SameSpace other x.1 s)
          (e.embed (map (λ c. c.text) chunks)) (none, s) (λ vs. _) (λ h. refl)
          (λ vs h. rw (get_or-put, foreign)))

  ingest-elsewhere :
      (digest : Text → String) (chunker : Chunker) (now : String) (s : Spaces V)
      (tenant other : String) (text : Text) (kind : MemoryKind) (source : Option Text)
      (metadata : Dict String Value)
      → (tenant == other) ≡ false
      → SameSpace
          (tenant_namespace other)
          (ingest e digest chunker now s tenant text kind source metadata).1
          s
  unfolding ingest
  ingest-elsewhere digest chunker now s tenant other text kind source metadata foreign =
      if_rule (λ (x : Option ℕ × Spaces V). SameSpace (tenant_namespace other) x.1 s)
        (is_empty (split chunker text)) (some 0, s) _ refl
        (upsert-elsewhere s (tenant_namespace tenant) (tenant_namespace other) _
          (namespace-ne tenant other foreign))

  forgotten : (s : Spaces V) (namespace : String) → get_or (remove s namespace) namespace [] ≡ []
  unfolding get_or
  forgotten s namespace = ground (arith, get-remove s namespace namespace, ==_refl namespace)

  forget-elsewhere :
      (s : Spaces V) (tenant other : String)
      → (tenant == other) ≡ false
      → SameSpace (tenant_namespace other) (forget_tenant s tenant) s
  unfolding forget_tenant drop_namespace get_or
  forget-elsewhere s tenant other foreign = ground (
    arith,
    get-remove s (tenant_namespace tenant) (tenant_namespace other),
    namespace-ne tenant other foreign,
  )

  retrieve-SameSpace :
      (s t : Spaces V) (tenant : String) (q : Query)
      → SameSpace (tenant_namespace tenant) s t
      → retrieve e s tenant q ≡ retrieve e t tenant q
  unfolding retrieve search
  retrieve-SameSpace s t tenant q h =
      ap (λ (d : Dict String (Entry V)). relevant q (search_space e d q)) h

  -- The memories of two tenants are apart: whatever a tenant stores or drops, a search of another
  -- tenant finds what it would have found before.
  pub retrieve-isolated :
      (digest : Text → String) (chunker : Chunker) (now : String) (s : Spaces V)
      (tenant other : String) (text : Text) (kind : MemoryKind) (source : Option Text)
      (metadata : Dict String Value) (q : Query)
      → (tenant == other) ≡ false
      → (retrieve e (ingest e digest chunker now s tenant text kind source metadata).1 other q
          ≡ retrieve e s other q)
        × (retrieve e (forget_tenant s tenant) other q ≡ retrieve e s other q)
  retrieve-isolated digest chunker now s tenant other text kind source metadata q foreign = (
    retrieve-SameSpace _ s other q
        (ingest-elsewhere digest chunker now s tenant other text kind source metadata foreign),
    retrieve-SameSpace _ s other q (forget-elsewhere s tenant other foreign),
  )

  -- After a tenant's memory is dropped, nothing is counted in it and every search of it is empty,
  -- whatever the embedder does.
  pub forget_tenant-erases :
      (s : Spaces V) (tenant : String) (q : Query)
      → (count (forget_tenant s tenant) (tenant_namespace tenant) ≡ 0)
        × (retrieve e (forget_tenant s tenant) tenant q ≡ some [])
  unfolding count retrieve search search_space relevant forget_tenant drop_namespace is_empty
  forget_tenant-erases s tenant q =
      let gone = forgotten s (tenant_namespace tenant) in
      (ap length gone, ap (λ (d : Dict String (Entry V)). relevant q (search_space e d q)) gone)
