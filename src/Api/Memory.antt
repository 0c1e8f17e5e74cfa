-- ===== src/Api/Memory.antt =====
-- bat/api/routers/memory.py: the endpoints of a tenant's memory. `none` stands for an exception of the
-- embedder, which the request ends with. A score is rounded to four decimals for the answer, which is
-- a parameter.
use bat_ai.Prelude.{
  ℕ, Bool, true, ◌&&◌, List, [], ◌∷◌, Option, none, some, String, if◌then◌else◌, map, leb, length,
}
use bat_ai.Prelude.Dict.{Dict}
use bat_ai.Prelude.Text.{Text, codes, strip}
use bat_ai.Domain.Errors.{ok, raise, error, validation}
use bat_ai.Domain.Tenancy.{Scope, TenantContext, memory_read, memory_write, require}
use bat_ai.Tools.Registry.{Outcome, returns, raises, crashes}
use bat_ai.Domain.Conversation.{Value}
use bat_ai.Rag.Chunking.{Chunker, is_empty, estimate_tokens}
use bat_ai.Rag.Vectors.{MemoryKind, RetrievedChunk, Query, Spaces, Embedding}
use bat_ai.Rag.Pipeline.{Settings, ingest, retrieve, build_context, forget_tenant}

pub record IngestRequest : Type 0 where
  pub text : Text
  pub kind : MemoryKind
  pub source : Option Text
  pub metadata : Dict String Value

pub data Request : Type 0 where
  ingest_document : IngestRequest → Request
  search_memory : Text → ℕ → Option MemoryKind → Request
  preview_context : Text → Request
  forget : Request

pub record Hit : Type 0 where
  pub text : Text
  pub kind : MemoryKind
  pub source : Option Text
  pub score : ℕ

pub data Response : Type 0 where
  ingested : ℕ → MemoryKind → Option Text → Response
  found : Text → List Hit → Response
  previewed : Text → ℕ → Response
  no_content : Response

unfoldable pub scope_of : Request → Scope
scope_of (ingest_document body) = memory_write
scope_of (search_memory q top_k kind) = memory_read
scope_of (preview_context q) = memory_read
scope_of forget = memory_write

abbrev within : ℕ → ℕ → ℕ → Bool
within low high n = leb low n && leb n high

-- The constraints of the body's fields and of the query parameters.
unfoldable pub is_well_formed : Request → Bool
is_well_formed (ingest_document body) =
    within 1 500000 (length body.text)
    && (elim body.source [ none ↦ true | some s ↦ leb (length s) 512 ]
        && leb (length body.metadata) 16)
is_well_formed (search_memory q top_k kind) = within 1 2000 (length q) && within 1 50 top_k
is_well_formed (preview_context q) = within 1 2000 (length q)
is_well_formed forget = true

-- What the endpoints work with: the pipeline's parts, the settings and the score to show.
pub record Pipeline (V : Type 0) : Type 0 where
  pub embedding : Embedding V
  pub digest : Text → String
  pub chunker : Chunker
  pub settings : Settings
  pub context_token_budget : ℕ
  pub shown : ℕ → Text
  pub rounded : ℕ → ℕ

unfoldable pub query_of : Settings → Text → ℕ → Option MemoryKind → Query
query_of settings q top_k kind = record {
  text = q;
  top_k = top_k;
  kinds = elim kind [ none ↦ [] | some k ↦ k ∷ [] ];
  min_score = settings.min_score;
  filters = [];
}

module _ {V : Type 0} (p : Pipeline V) where
  open p use {embedding, digest, chunker, settings, context_token_budget, shown, rounded}

  hit : RetrievedChunk → Hit
  hit r = record {
    text = r.chunk.text;
    kind = r.chunk.kind;
    source = r.chunk.source;
    score = rounded r.score;
  }

  unfoldable pub ingested_or : IngestRequest → Option ℕ → Outcome Response
  ingested_or body none = crashes
  ingested_or body (some n) = returns (ingested n body.kind body.source)

  unfoldable pub found_or : Text → Option (List RetrievedChunk) → Outcome Response
  unfolding hit
  found_or q none = crashes
  found_or q (some results) = returns (found q (map hit results))

  unfoldable pub previewed_or : Option Text → Outcome Response
  unfolding estimate_tokens
  previewed_or none = crashes
  previewed_or (some block) =
      returns (previewed block (if is_empty block then 0 else estimate_tokens block))

  -- The bodies of the handlers, at a time that an ingestion records.
  unfoldable pub handle : Request → TenantContext → String → Spaces V → Outcome Response × Spaces V
  unfolding ingested_or found_or previewed_or query_of
  handle (ingest_document body) context now spaces =
      if is_empty (strip body.text)
      then (raises (error validation (codes "text must not be blank")), spaces)
      else (let (written, spaces') =
            ingest embedding digest chunker now spaces context.tenant_id body.text body.kind
              body.source body.metadata in
          (ingested_or body written, spaces'))
  handle (search_memory q top_k kind) context now spaces = (
    found_or q (retrieve embedding spaces context.tenant_id (query_of settings q top_k kind)),
    spaces,
  )
  handle (preview_context q) context now spaces = (
    previewed_or
        (build_context embedding shown settings spaces context.tenant_id q context_token_budget),
    spaces,
  )
  handle forget context now spaces = (returns no_content, forget_tenant spaces context.tenant_id)

  -- The endpoint: its dependency on the scope, the checks of what comes in, and the handler.
  unfoldable pub endpoint :
      Request → TenantContext → String → Spaces V → Outcome Response × Spaces V
  unfolding handle is_well_formed scope_of require
  endpoint r context now spaces = elim (require context (scope_of r ∷ [])) [
    | raise e ↦ (raises e, spaces)
    | ok allowed ↦ if is_well_formed r then handle r allowed now spaces else (
      raises (error validation (codes "request body or parameters failed validation")),
      spaces,
    )
  ]
