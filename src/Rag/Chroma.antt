-- ===== src/Rag/Chroma.antt =====
-- bat/adapters/vector_chroma.py: the vector store over Chroma. Chroma's client and the embedder are
-- parameters; a failure of either is `none`. A distance is a whole number of thousandths, and a score
-- one from 0 to 1000.
use bat_ai.Prelude.{
  Bool, true, false, ℕ, ◌-◌, List, [], ◌∷◌, Option, none, some, String, if◌then◌else◌, string_eq,
  map, ltb, ◌++◌,
}
use bat_ai.Prelude.Integers.{ℤ, pos, negsuc}
use bat_ai.Prelude.Dict.{Dict, get, put, remove}
use bat_ai.Prelude.Text.{Text, codes, text_beq}
use bat_ai.Rag.Chunking.{is_empty}
use bat_ai.Domain.Conversation.{Value, boolean, integer, number, text}
use bat_ai.Rag.Vectors.{
  MemoryKind, knowledge, user_profile, document, conversation, Chunk, RetrievedChunk, Query,
}

-- `str(kind)`
unfoldable pub kind_name : MemoryKind → String
kind_name knowledge = "knowledge"
kind_name user_profile = "user_profile"
kind_name document = "document"
kind_name conversation = "conversation"

abbrev pub Metadata : Type 0
Metadata = Dict String Value

-- `isinstance(value, (str, int, float, bool))`
unfoldable pub is_scalar : Value → Bool
is_scalar (text s) = true
is_scalar (integer s) = true
is_scalar (number s) = true
is_scalar (boolean b) = true
is_scalar v = false

-- The loop over the chunk's own metadata: what is no scalar is dropped.
unfoldable pub put_all : Metadata → Metadata → Metadata
unfolding is_scalar
put_all d [] = d
put_all d ((key, value) ∷ rest) = put_all (if is_scalar value then put d key value else d) rest

-- The metadata before the loop.
unfoldable pub own_metadata : MemoryKind → Option Text → Metadata
unfolding kind_name
own_metadata kind none = ("kind", text (codes (kind_name kind))) ∷ []
own_metadata kind (some source) =
    if is_empty source
    then ("kind", text (codes (kind_name kind))) ∷ []
    else ("kind", text (codes (kind_name kind))) ∷ ("source", text source) ∷ []

-- `_to_metadata`
unfoldable pub to_metadata : Chunk → Metadata
unfolding put_all own_metadata
to_metadata c = put_all (own_metadata c.kind c.source) c.metadata

-- One clause of a filter: the kinds that may stand there, or a value.
pub data Clause : Type 0 where
  kind_in : List String → Clause
  equals : String → String → Clause

pub data Where : Type 0 where
  anywhere : Where
  one : Clause → Where
  all_of : List Clause → Where

where_of : List Clause → Where
where_of [] = anywhere
where_of (c ∷ []) = one c
where_of (c ∷ d ∷ cs) = all_of (c ∷ d ∷ cs)

-- `_build_where`
unfoldable pub build_where : Query → Where
unfolding where_of kind_name
build_where q = where_of (
    (if is_empty q.kinds then [] else kind_in (map kind_name q.kinds) ∷ [])
    ++ map (λ (f : String × String). equals f.0 f.1) q.filters)

-- `_parse_kind`; what names no kind is knowledge.
unfoldable pub parse_kind : Option Value → MemoryKind
parse_kind (some (text name)) =
    if text_beq name (codes "user_profile")
    then user_profile
    else if text_beq name (codes "document")
    then document
    else if text_beq name (codes "conversation")
    then conversation
    else knowledge
parse_kind value = knowledge

-- The answer of a query: a list for each probe, or no lists.
pub record Raw : Type 0 where
  pub ids : List (List String)
  pub documents : List (List Text)
  pub metadatas : List (List (Option Metadata))
  pub distances : List (List ℤ)

first_list : {A : Type 0} → List (List A) → List A
first_list [] = []
first_list (xs ∷ rest) = xs

abbrev head_or : {A : Type 0} → A → List A → A
head_or d [] = d
head_or d (x ∷ xs) = x

abbrev tail : {A : Type 0} → List A → List A
tail [] = []
tail (x ∷ xs) = xs

-- `max(0.0, min(1.0, 1.0 - distance))`
unfoldable pub similarity : ℤ → ℕ
similarity (pos d) = 1000 - d
similarity (negsuc d) = 1000

-- The source, which is a text or none unless the caller's own metadata has a key `source`.
unfoldable pub source_of : Option Value → Option Text
source_of (some (text s)) = some s
source_of value = none

or_empty : Option Metadata → Metadata
or_empty none = []
or_empty (some m) = m

-- The result of one row.
unfoldable pub to_chunk : String → Text → Metadata → Chunk
unfolding parse_kind source_of
to_chunk id content metadata =
    let others = remove metadata "kind" in
    record {
      id = id;
      text = content;
      kind = parse_kind (get metadata "kind");
      source = source_of (get others "source");
      metadata = remove others "source";
    }

-- The loop of `_to_results`; the lists go on together, and one that is too short gives its default.
unfoldable pub rows :
    ℕ → List String → List Text → List (Option Metadata) → List ℤ → List RetrievedChunk
unfolding to_chunk similarity or_empty
rows min_score [] documents metadatas distances = []
rows min_score (id ∷ ids) documents metadatas distances =
    let score = similarity (head_or (pos 1000) distances) in
    let metadata = or_empty (head_or none metadatas) in
    let others = rows min_score ids (tail documents) (tail metadatas) (tail distances) in
    if ltb score min_score
    then others
    else record { chunk = to_chunk id (head_or [] documents) metadata; score = score } ∷ others

-- `_to_results`
unfoldable pub to_results : ℕ → Raw → List RetrievedChunk
unfolding rows first_list
to_results min_score raw =
    rows min_score (first_list raw.ids) (first_list raw.documents) (first_list raw.metadatas)
      (first_list raw.distances)
