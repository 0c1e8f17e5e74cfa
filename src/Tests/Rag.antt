-- ===== src/Tests/Rag.antt =====
-- Tests of the memory: a text cut into chunks.
use bat_ai.Prelude.{
  arith, ◌∷◌, refl, map, length, some, none, [], List, Option, true, keep, leb, min, ◌-◌, ◌≤◌, ◌≡◌,
  ℕ, All,
}
use bat_ai.Prelude.Text.{concat, decimal, Text, codes}
use bat_ai.Prelude.Dict.{get}
use bat_ai.Prelude.Integers.{ℤ, pos}
use bat_ai.Domain.Conversation.{Value}
use bat_ai.Rag.Bounds.{windows-whole, IsChunk, split-IsChunk}
use bat_ai.Rag.Chunking.{windows, estimate_tokens, Chunker, default_separators, split}
use bat_ai.Rag.Vectors.{knowledge, document, Chunk, RetrievedChunk, Query, Entry, Embedding, Spaces}
use bat_ai.Rag.Pipeline.{ingest, retrieve, forget_tenant, chosen, context_preamble}
use bat_ai.Rag.Isolation.{retrieve-isolated}
use bat_ai.Rag.Chroma.{to_results}
use bat_ai.Rag.Stored.{IsStorable, raw_of, scored, to_results-to_metadata}
use bat_ai.Rag.Embedder.{Floats, Response, vector, embed}
use bat_ai.Rag.Context.{total_cost, chosen-cost}

abbrev small : Chunker
small = record { chunk_size = 20; chunk_overlap = 5; separators = default_separators }

abbrev note : Text
note = codes "The first fact. The second, longer fact. And then a third."

split-IsChunk_example : All (IsChunk small) (split small note)
split-IsChunk_example = split-IsChunk small note

-- An embedder of lengths, and two chunks in the memory of one tenant.
abbrev lengths : Embedding ℕ
lengths = record { embed = λ ts. some (map length ts); cosine = λ a b. min a b }

abbrev fact : Chunk
fact = record {
  id = "f1";
  text = codes "likes tea";
  kind = knowledge;
  source = none;
  metadata = ("lang", Value.text (codes "en")) ∷ ("tags", Value.array (codes "[]")) ∷ [];
}

abbrev spaces : Spaces ℕ
spaces = ("bat_t_acme", ("f1", record { chunk = fact; vector = 9 }) ∷ []) ∷ []

abbrev tea : Query
tea = record { text = codes "tea"; top_k = 2; kinds = []; min_score = 1; filters = [] }

retrieve-isolated_example :
    (retrieve lengths
        (ingest lengths (λ t. "d") small "now" spaces "other" note document none []).1
        "acme"
        tea
      ≡ retrieve lengths spaces "acme" tea)
    × (retrieve lengths (forget_tenant spaces "other") "acme" tea
        ≡ retrieve lengths spaces "acme" tea)
retrieve-isolated_example =
    retrieve-isolated lengths (λ t. "d") small "now" spaces "other" "acme" note document none [] tea
      refl

abbrev entries : List (Entry ℕ)
entries =
    record { chunk = fact; vector = 9 }
    ∷ record { chunk = fact; vector = 0 }
    ∷ record { chunk = fact; vector = 2 }
    ∷ []

abbrev results : List RetrievedChunk
results = record { chunk = fact; score = 3 } ∷ record { chunk = fact; score = 5 } ∷ []

chosen-cost_example :
    total_cost (chosen decimal results 100) ≤ 100 - estimate_tokens context_preamble
chosen-cost_example = chosen-cost decimal results 100

windows-whole_example : concat (windows 4 3 (codes "abcd")) ≡ codes "abcd"
windows-whole_example = windows-whole 4 3 (codes "abcd") (omega arith) (omega arith)

fact-IsStorable : IsStorable fact
unfolding get
fact-IsStorable = record {
  no_kind = refl;
  no_source = refl;
  distinct = (refl, (refl, tt));
  sourced = λ h. absurd (ground arith);
}

-- Two hits, the second of them below the threshold.
abbrev hits : List (Chunk × ℤ)
hits = (fact, pos 100) ∷ (fact, pos 900) ∷ []

to_results-to_metadata_example :
    to_results 500 (raw_of hits) ≡ keep (λ (r : RetrievedChunk). leb 500 r.score) (map scored hits)
to_results-to_metadata_example =
    to_results-to_metadata 500 hits (fact-IsStorable, (fact-IsStorable, tt))

abbrev floats : Floats ℕ
floats = record {
  mean = λ xs. length xs;
  norm = λ xs. length xs;
  is_zero = λ x. true;
  divide = λ x y. x;
}

-- Each text is embedded by its length.
abbrev create : List Text → Option (Response ℕ)
create batch = some (some (map (λ (s : Text). vector (length s ∷ [])) batch))
