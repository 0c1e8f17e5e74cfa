-- ===== src/Rag/Collections.antt =====
-- bat/adapters/vector_chroma.py: `ChromaVectorStore`, which keeps the collections that it has
-- opened. The client of Chroma is a parameter, as its documentation has it, on a world that stands
-- for its server; a call that raises is `none` or `false`. Opening the client is a part of the
-- first call.
use bat_ai.Prelude.{
  ◌≡◌, ◌∙◌, ap, ℕ, max, Bool, List, [], ◌∷◌, Option, none, some, String, if◌then◌else◌, string_eq,
  map, length, arith, option_cases, Option-cases, if_rule, inl, inr,
}
use bat_ai.Prelude.Dict.{Dict, get, put, remove, Entries, put-Entries, remove-Entries, get-Entries}
use bat_ai.Prelude.Text.{Text, codes}
use bat_ai.Rag.Chunking.{is_empty}
use bat_ai.Domain.Errors.{error, upstream}
use bat_ai.Tools.Registry.{Outcome, returns, raises, crashes}
use bat_ai.Rag.Vectors.{Chunk, RetrievedChunk, Query, Embedding}
use bat_ai.Rag.Chroma.{Metadata, Where, Raw, to_metadata, build_where, to_results}

-- One row of an upsert.
pub record Row (V : Type 0) : Type 0 where
  pub id : String
  pub document : Text
  pub embedding : V
  pub metadata : Metadata

pub record Client (C V W : Type 0) : Type 0 where
  pub get_or_create : String → W → Option C × W
  pub upsert : C → List (Row V) → W → Bool × W
  -- `none` when it raises, with the print of the exception.
  pub query : C → V → ℕ → Where → W → Option Raw × W
  pub delete : C → List String → W → Bool × W
  pub delete_collection : String → W → Bool × W
  pub count : C → W → Option ℕ × W

pub record Store (C W : Type 0) : Type 0 where
  pub collections : Dict String C
  pub world : W

-- The rows of chunks and their vectors; with fewer vectors Chroma raises.
unfoldable pub rows_of : {V : Type 0} → List Chunk → List V → Option (List (Row V))
unfolding to_metadata
rows_of [] [] = some []
rows_of [] (v ∷ vs) = none
rows_of (c ∷ cs) [] = none
rows_of (c ∷ cs) (v ∷ vs) = elim (rows_of cs vs) [
  | none ↦ none
  | some rows ↦
      some (record { id = c.id; document = c.text; embedding = v; metadata = to_metadata c } ∷ rows)
]

first_of : {V : Type 0} → Option (List V) → Option V
first_of none = none
first_of (some []) = none
first_of (some (v ∷ vs)) = some v

module _ {C V W : Type 0} (client : Client C V W) (e : Embedding V) where
  -- `_collection`
  unfoldable pub collection : String → Store C W → Option C × Store C W
  collection namespace s = elim (get s.collections namespace) [
    | some c ↦ (some c, s)
    | none ↦
        let (opened, w) = client.get_or_create namespace s.world in
        elim opened [
          | none ↦ (none, record s { world = w })
          | some c ↦ (some c, record { collections = put s.collections namespace c; world = w })
        ]
  ]

  -- What is done with the collection once it is open; without one the call raises.
  unfoldable pub with_collection :
      {A : Type 0} → String → (C → W → Outcome A × W) → Store C W → Outcome A × Store C W
  unfolding collection
  with_collection namespace f s =
      let (opened, s') = collection namespace s in
      elim opened [
        | none ↦ (crashes, s')
        | some c ↦ let (o, w) = f c s'.world in (o, record s' { world = w })
      ]

  write_rows : List Chunk → C → W → Outcome ℕ × W
  unfolding rows_of
  write_rows chunks c w = elim (e.embed (map (λ (x : Chunk). x.text) chunks)) [
    | none ↦ (crashes, w)
    | some vectors ↦ elim (rows_of chunks vectors) [
      | none ↦ (crashes, w)
      | some rows ↦
          let (written, w') = client.upsert c rows w in
          ((if written then returns (length chunks) else crashes), w')
    ]
  ]

  unfoldable pub upsert : String → List Chunk → Store C W → Outcome ℕ × Store C W
  unfolding with_collection write_rows
  upsert namespace chunks s =
      if is_empty chunks then (returns 0, s) else with_collection namespace (write_rows chunks) s

  query_rows : Query → C → W → Outcome (List RetrievedChunk) × W
  unfolding first_of build_where to_results
  query_rows q c w = elim (first_of (e.embed (q.text ∷ []))) [
    | none ↦ (crashes, w)
    | some probe ↦
        let (raw, w') = client.query c probe (max 1 q.top_k) (build_where q) w in
        elim raw [
          | none ↦ (raises (error upstream (codes "vector search failed")), w')
          | some r ↦ (returns (to_results q.min_score r), w')
        ]
  ]

  unfoldable pub search : String → Query → Store C W → Outcome (List RetrievedChunk) × Store C W
  unfolding with_collection query_rows
  search namespace q s = with_collection namespace (query_rows q) s

  delete_rows : List String → C → W → Outcome ℕ × W
  delete_rows ids c w =
      let (deleted, w') = client.delete c ids w in
      ((if deleted then returns (length ids) else crashes), w')

  unfoldable pub delete : String → List String → Store C W → Outcome ℕ × Store C W
  unfolding with_collection delete_rows
  delete namespace ids s =
      if is_empty ids then (returns 0, s) else with_collection namespace (delete_rows ids) s

  count_rows : C → W → Outcome ℕ × W
  count_rows c w =
      let (n, w') = client.count c w in (elim n [ none ↦ crashes | some m ↦ returns m ], w')

  unfoldable pub count : String → Store C W → Outcome ℕ × Store C W
  unfolding with_collection count_rows
  count namespace s = with_collection namespace count_rows s

module _ {C V W : Type 0} (client : Client C V W) where
  -- `drop_namespace`: an exception of the client is taken for the absence of the collection.
  unfoldable pub drop_namespace : String → Store C W → Store C W
  drop_namespace namespace s =
      let (dropped, w) = client.delete_collection namespace s.world in
      record { collections = remove s.collections namespace; world = w }

-- What the client promises: the collection that it opens has the name that was asked for.
abbrev pub Opens : {C V W : Type 0} → Client C V W → (C → String) → Type 0
Opens {C} {V} {W} client name =
    (namespace : String) (w : W) (c : C)
    → (client.get_or_create namespace w).0 ≡ some c
    → name c ≡ namespace

-- Every collection is kept under its own name.
abbrev pub IsFiled : {C W : Type 0} → (C → String) → Store C W → Type 0
IsFiled {C} name s = Entries (λ (namespace : String) (c : C). name c ≡ namespace) s.collections

-- A call on the store of a namespace: its effect on the rows, in one of the ways above.
pub data Call : Type 0 where
  writes : List Chunk → Call
  searches : Query → Call
  deletes : List String → Call
  counts : Call
  drops : Call

module _ {C V W : Type 0} (client : Client C V W) (e : Embedding V) where
  unfoldable pub perform : String → Call → Store C W → Store C W
  perform namespace (writes chunks) s = (upsert client e namespace chunks s).1
  perform namespace (searches q) s = (search client e namespace q s).1
  perform namespace (deletes ids) s = (delete client e namespace ids s).1
  perform namespace counts s = (count client e namespace s).1
  perform namespace drops s = drop_namespace client namespace s

  module _ (name : C → String) (opens : Opens client name) where
    collection-IsFiled :
        (namespace : String) (s : Store C W)
        → IsFiled name s
        → IsFiled name (collection client e namespace s).1
    unfolding collection
    collection-IsFiled namespace s h =
        option_cases (λ (x : Option C × Store C W). IsFiled name x.1) (get s.collections namespace)
          _ _
          (λ absent.
            option_cases (λ (x : Option C × Store C W). IsFiled name x.1)
              (client.get_or_create namespace s.world).0 _ _ (λ _. h)
              (λ c opened.
                put-Entries _ s.collections namespace c (opens namespace s.world c opened) h))
          (λ c there. h)

    with_collection-IsFiled :
        {A : Type 0} (namespace : String) (f : C → W → Outcome A × W) (s : Store C W)
        → IsFiled name s
        → IsFiled name (with_collection client e namespace f s).1
    unfolding with_collection
    with_collection-IsFiled {A} namespace f s h =
        let filed = collection-IsFiled namespace s h in
        option_cases (λ (x : Outcome A × Store C W). IsFiled name x.1)
          (collection client e namespace s).0 _ _ (λ _. filed) (λ c _. filed)

    perform_files :
        (namespace : String) (c : Call) (s : Store C W)
        → IsFiled name s
        → IsFiled name (perform namespace c s)
    unfolding perform upsert search delete count drop_namespace
    perform_files namespace (writes chunks) s h =
        if_rule (λ (x : Outcome ℕ × Store C W). IsFiled name x.1) (is_empty chunks) _ _ h
          (with_collection-IsFiled namespace (write_rows client e chunks) s h)
    perform_files namespace (searches q) s h =
        with_collection-IsFiled namespace (query_rows client e q) s h
    perform_files namespace (deletes ids) s h =
        if_rule (λ (x : Outcome ℕ × Store C W). IsFiled name x.1) (is_empty ids) _ _ h
          (with_collection-IsFiled namespace (delete_rows client e ids) s h)
    perform_files namespace counts s h = with_collection-IsFiled namespace (count_rows client e) s h
    perform_files namespace drops s h = remove-Entries _ s.collections namespace h

    collection-named :
        (namespace : String) (s : Store C W) (k : C)
        → IsFiled name s
        → (collection client e namespace s).0 ≡ some k
        → name k ≡ namespace
    unfolding collection
    collection-named namespace s k h found = elim (Option-cases (get s.collections namespace)) [
      | inr (c, there) ↦
          let same : c ≡ k = ground arith in
          get-Entries _ s.collections namespace k (there ∙ ap some same) h
      | inl absent ↦ elim (Option-cases (client.get_or_create namespace s.world).0) [
        | inl failed ↦ absurd (ground arith)
        | inr (c, opened) ↦
            let same : c ≡ k = ground arith in opens namespace s.world k (opened ∙ ap some same)
      ]
    ]

    -- Tenants never get one another's collections: where the client opens the collection that it is
    -- asked for, every call leaves each collection that the store keeps under its own name, so that
    -- what a call of a namespace reads and writes is the collection of that name.
    pub perform-IsFiled :
        (namespace : String) (c : Call) (s : Store C W)
        → IsFiled name s
        → IsFiled name (perform namespace c s)
          × ((k : C) → (collection client e namespace s).0 ≡ some k → name k ≡ namespace)
    perform-IsFiled namespace c s h =
        (perform_files namespace c s h, λ k found. collection-named namespace s k h found)
