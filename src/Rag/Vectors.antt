-- ===== src/Rag/Vectors.antt =====
-- bat/ports/retrieval.py and bat/adapters/vector_memory.py: chunks with their vectors, in a dictionary
-- for each namespace. The embedder, which may fail, and the cosine of two vectors, which is of
-- floats, are parameters; a score is a natural number in a unit of its own.
use bat_ai.Prelude.{
  ◌||◌, ℕ, ◌+◌, ◌≡◌, ◌↔◌, Bool, true, false, ◌&&◌, List, [], ◌∷◌, Option, none, some, String, arith,
  if◌then◌else◌, string_eq, nat_beq, ltb, leb, length, take, keep, map, contains, is_some, Eq,
}
use bat_ai.Prelude.Dict.{Dict, get, put, remove, get_or, values}
use bat_ai.Prelude.Text.{Text, codes, text_beq}
use bat_ai.Domain.Conversation.{Value}
use bat_ai.Rag.Chunking.{is_empty}

pub data MemoryKind : Type 0 where
  knowledge user_profile document conversation : MemoryKind

abbrev kind_tag : MemoryKind → ℕ
kind_tag knowledge = 0
kind_tag user_profile = 1
kind_tag document = 2
kind_tag conversation = 3

abbrev kind_beq : MemoryKind → MemoryKind → Bool
kind_beq a b = nat_beq (kind_tag a) (kind_tag b)

pub kind_beq_iff : (a b : MemoryKind) → (kind_beq a b ≡ true) ↔ (a ≡ b)
kind_beq_iff a b = ground arith

instance abbrev pub kind_eq : Eq MemoryKind
kind_eq = record { beq = kind_beq; beq_iff = kind_beq_iff }

-- The metadata are JSON values.
pub record Chunk : Type 0 where
  pub id : String
  pub text : Text
  pub kind : MemoryKind
  pub source : Option Text
  pub metadata : Dict String Value

pub record RetrievedChunk : Type 0 where
  pub chunk : Chunk
  pub score : ℕ

pub record Query : Type 0 where
  pub text : Text
  pub top_k : ℕ
  pub kinds : List MemoryKind
  pub min_score : ℕ
  pub filters : Dict String String

unfoldable pub prefixed : String → String → String
prefixed String.[] t = t
prefixed (String.◌∷◌ c s) t = String.◌∷◌ c (prefixed s t)

unfoldable pub tenant_namespace : String → String
unfolding prefixed
tenant_namespace tenant = prefixed "bat_t_" tenant

-- Sorted by the score, the highest first; of two with one score the earlier stays first.
unfoldable pub insert_by_score : RetrievedChunk → List RetrievedChunk → List RetrievedChunk
insert_by_score x [] = x ∷ []
insert_by_score x (y ∷ ys) =
    let rest = insert_by_score x ys in if ltb x.score y.score then y ∷ rest else x ∷ y ∷ ys

unfoldable pub by_score : List RetrievedChunk → List RetrievedChunk
unfolding insert_by_score
by_score [] = []
by_score (x ∷ xs) = insert_by_score x (by_score xs)

module _ (V : Type 0) where
  pub record Entry : Type 0 where
    pub chunk : Chunk
    pub vector : V

  pub record Embedding : Type 0 where
    -- `none` when the embedder raises
    pub embed : List Text → Option (List V)
    pub cosine : V → V → ℕ

  abbrev pub Spaces : Type 0
  Spaces = Dict String (Dict String Entry)

module _ {V : Type 0} (e : Embedding V) where
  -- The loop over `zip(chunks, vectors, strict=True)`, and whether the two were of one length.
  unfoldable pub write_pairs :
      List Chunk → List V → Dict String (Entry V) → Bool × Dict String (Entry V)
  write_pairs [] [] space = (true, space)
  write_pairs [] (v ∷ vs) space = (false, space)
  write_pairs (c ∷ cs) [] space = (false, space)
  write_pairs (c ∷ cs) (v ∷ vs) space =
      write_pairs cs vs (put space c.id (record { chunk = c; vector = v }))

  -- `upsert`; `none` when the embedder fails or its vectors are not one for each chunk.
  unfoldable pub upsert : Spaces V → String → List Chunk → Option ℕ × Spaces V
  unfolding write_pairs
  upsert spaces namespace chunks =
      if is_empty chunks then (some 0, spaces) else elim (e.embed (map (λ c. c.text) chunks)) [
        | none ↦ (none, spaces)
        | some vectors ↦
            let (complete, space) = write_pairs chunks vectors (get_or spaces namespace []) in
            (if complete then some (length chunks) else none, put spaces namespace space)
      ]

  -- Whether a look-up finds the text.
  abbrev is_text : String → Option Value → Bool
  is_text s (some (Value.text t)) = text_beq t (codes s)
  is_text s value = false

  -- `e.chunk.metadata.get(key) == value`, for a value that is a text
  abbrev pub has_value : String → String → Chunk → Bool
  has_value key value c = is_text value (get c.metadata key)

  unfoldable pub matches : Query → Chunk → Bool
  unfolding is_empty
  matches q c = (is_empty q.kinds || contains c.kind q.kinds) && all_match q.filters c
    where
      all_match : Dict String String → Chunk → Bool
      all_match [] c = true
      all_match ((key, value) ∷ rest) c = has_value key value c && all_match rest c

  abbrev pub scored : V → Entry V → RetrievedChunk
  scored probe entry = record { chunk = entry.chunk; score = e.cosine probe entry.vector }

  -- The results for a probe.
  unfoldable pub ranked : Query → V → List (Entry V) → List RetrievedChunk
  unfolding by_score
  ranked q probe entries =
      take q.top_k (by_score (keep (λ s. leb q.min_score s.score) (map (scored probe) entries)))

  first_vector : Option (List V) → Option V
  first_vector none = none
  first_vector (some []) = none
  first_vector (some (v ∷ vs)) = some v

  -- `search`, over the entries of one namespace; `none` when the embedder fails.
  unfoldable pub search_space : Dict String (Entry V) → Query → Option (List RetrievedChunk)
  unfolding ranked matches first_vector
  search_space space q =
      let entries = keep (λ x. matches q x.chunk) (values space) in
      if is_empty entries then some [] else elim (first_vector (e.embed (q.text ∷ []))) [
        | none ↦ none
        | some probe ↦ some (ranked q probe entries)
      ]

  unfoldable pub search : Spaces V → String → Query → Option (List RetrievedChunk)
  search spaces namespace q = search_space (get_or spaces namespace []) q

module _ {V : Type 0} where
  -- The loop of `delete`: the ids that were there.
  unfoldable pub pop_all : List String → Dict String (Entry V) → ℕ × Dict String (Entry V)
  pop_all [] space = (0, space)
  pop_all (id ∷ ids) space =
      let (n, rest) = pop_all ids (remove space id) in
      ((if is_some (get space id) then n + 1 else n), rest)

  unfoldable pub delete : Spaces V → String → List String → ℕ × Spaces V
  unfolding pop_all
  delete spaces namespace ids =
      let space = get_or spaces namespace [] in
      if is_empty space
      then (0, spaces)
      else (let (n, rest) = pop_all ids space in (n, put spaces namespace rest))

  unfoldable pub drop_namespace : Spaces V → String → Spaces V
  drop_namespace spaces namespace = remove spaces namespace

  unfoldable pub count : Spaces V → String → ℕ
  count spaces namespace = length (get_or spaces namespace [])
