-- ===== src/Rag/Embedder.antt =====
-- bat/adapters/llama_cpp_embedder.py: `LlamaCppEmbedder.embed`, in batches, and what is made of
-- llama.cpp's answers. Floats and what llama.cpp answers are parameters; `none` is an exception.
use bat_ai.Prelude.{
  ◌≡◌, ℕ, zero, suc, ◌+◌, Bool, List, [], ◌∷◌, ◌++◌, Option, none, some, if◌then◌else◌, length,
  take, drop, map,
}
use bat_ai.Prelude.Text.{Text}
use bat_ai.Rag.Chunking.{is_empty}

-- The embedding of an entry: none, a vector, or a vector for each token.
pub data Entry (F : Type 0) : Type 0 where
  absent : Entry F
  vector : List F → Entry F
  matrix : List (List F) → Entry F

pub record Floats (F : Type 0) : Type 0 where
  pub mean : List F → F
  pub norm : List F → F
  pub is_zero : F → Bool
  pub divide : F → F → F

-- The answer of `create_embedding`, which may be null.
abbrev pub Response : Type 0 → Type 0
Response F = Option (List (Entry F))

nth : {A : Type 0} → ℕ → List A → Option A
nth n [] = none
nth zero (x ∷ xs) = some x
nth (suc n) (x ∷ xs) = nth n xs

-- The i-th number of each row; a row that is too short raises.
unfoldable pub column : {F : Type 0} → ℕ → List (List F) → Option (List F)
unfolding nth
column i [] = some []
column i (row ∷ rows) =
    let rest = column i rows in
    elim (nth i row) [ none ↦ none | some x ↦ elim rest [ none ↦ none | some xs ↦ some (x ∷ xs) ] ]

module _ {F : Type 0} (py : Floats F) where
  open py use {mean, norm, is_zero, divide}

  -- The means of the columns from the i-th on, of so many.
  means : ℕ → ℕ → List (List F) → Option (List F)
  unfolding column
  means i zero rows = some []
  means i (suc n) rows =
      let rest = means (i + 1) n rows in
      elim (column i rows) [
        | none ↦ none
        | some xs ↦ elim rest [ none ↦ none | some ys ↦ some (mean xs ∷ ys) ]
      ]

  -- `_mean_pool`
  unfoldable pub mean_pool : List (List F) → Option (List F)
  unfolding means
  mean_pool [] = some []
  mean_pool (row ∷ rows) = means 0 (length row) (row ∷ rows)

  -- `_l2_normalize`
  unfoldable pub l2_normalize : List F → List F
  l2_normalize v = let n = norm v in if is_zero n then v else map (λ x. divide x n) v

  -- The loop of `_coerce_vectors`: an entry without an embedding is left out.
  unfoldable pub coerce_entries : List (Entry F) → Option (List (List F))
  unfolding mean_pool
  coerce_entries [] = some []
  coerce_entries (absent ∷ entries) = coerce_entries entries
  coerce_entries (vector v ∷ entries) = elim (coerce_entries entries) [
    | none ↦ none
    | some vs ↦ some (v ∷ vs)
  ]
  coerce_entries (matrix rows ∷ entries) =
      let rest = coerce_entries entries in
      elim (mean_pool rows) [
        | none ↦ none
        | some v ↦ elim rest [ none ↦ none | some vs ↦ some (v ∷ vs) ]
      ]

  -- `_coerce_vectors`
  unfoldable pub coerce_vectors : Response F → Option (List (List F))
  unfolding coerce_entries
  coerce_vectors none = some []
  coerce_vectors (some entries) = coerce_entries entries

  -- An entry that stands for a vector: the vector itself, or the rows whose mean it is.
  abbrev pub Embeds : Entry F → List F → Type 0
  Embeds absent v = ⊥
  Embeds (vector u) v = u ≡ v
  Embeds (matrix rows) v = mean_pool rows ≡ some v

  module _ (create : List Text → Option (Response F)) (normalize : Bool) where
    finish : Option (List (List F)) → Option (List (List F))
    unfolding l2_normalize
    finish none = none
    finish (some vs) = some (if normalize then map l2_normalize vs else vs)

    -- `_embed_blocking`
    unfoldable pub embed_blocking : List Text → Option (List (List F))
    unfolding coerce_vectors finish
    embed_blocking batch = elim (create batch) [
      | none ↦ none
      | some response ↦ finish (coerce_vectors response)
    ]

    -- The loop over the batches; each takes at least one text, so there are no more than texts.
    unfoldable pub embed_batches : ℕ → ℕ → List Text → Option (List (List F))
    unfolding embed_blocking
    embed_batches zero size texts = some []
    embed_batches (suc fuel) size texts =
        let rest = embed_batches fuel size (drop size texts) in
        if is_empty texts then some [] else elim (embed_blocking (take size texts)) [
          | none ↦ none
          | some vs ↦ elim rest [ none ↦ none | some ws ↦ some (vs ++ ws) ]
        ]

    -- `embed`
    unfoldable pub embed : ℕ → List Text → Option (List (List F))
    unfolding embed_batches
    embed size texts = embed_batches (length texts) size texts

    -- What becomes of a text's vector.
    abbrev pub normalized : List F → List F
    normalized v = if normalize then l2_normalize v else v
