-- ===== src/Rag/Stored.antt =====
-- bat/adapters/vector_chroma.py: what is read back of what was stored.
use mathlib.Core.List.{append-nil, append_assoc}
use bat_ai.Prelude.{
  ◌≢◌, ◌≡◌, refl, sym, ap, ◌∙◌, inl, inr, ℕ, Bool, true, false, List, [], ◌∷◌, ◌++◌, Option, none,
  some, String, arith, string_eq, ==_iff, Bool-cases, Option-cases, if◌then◌else◌, map, keep, leb,
  ltb, All,
}
use bat_ai.Prelude.Integers.{ℤ}
use bat_ai.Prelude.Dict.{get, put, remove, remove_absent, HasDistinctKeys}
use bat_ai.Prelude.Text.{Text, codes}
use bat_ai.Domain.Conversation.{Value}
use bat_ai.Rag.Chunking.{is_empty}
use bat_ai.Rag.Vectors.{
  MemoryKind, knowledge, user_profile, document, conversation, Chunk, RetrievedChunk,
}
use bat_ai.Rag.Chroma.{
  kind_name, parse_kind, is_scalar, Metadata, put_all, own_metadata, to_metadata, to_chunk,
  source_of, similarity, rows, to_results, Raw,
}

-- No key of the chunk's metadata is one that the store writes itself, and its source is not empty.
pub record IsStorable (c : Chunk) : Type 0 where
  pub no_kind : get c.metadata "kind" ≡ none
  pub no_source : get c.metadata "source" ≡ none
  pub distinct : HasDistinctKeys c.metadata
  pub sourced : c.source ≢ some []

parse_kind-kind_name : (k : MemoryKind) → parse_kind (some (Value.text (codes (kind_name k)))) ≡ k
unfolding parse_kind kind_name
parse_kind-kind_name knowledge = refl
parse_kind-kind_name user_profile = refl
parse_kind-kind_name document = refl
parse_kind-kind_name conversation = refl

-- Null, an array and an object are no scalars.
abbrev pub is_flat : Value → Bool
is_flat Value.null = false
is_flat (Value.array s) = false
is_flat (Value.object s) = false
is_flat v = true

is_scalar-is_flat : (v : Value) → is_scalar v ≡ is_flat v
unfolding is_scalar
is_scalar-is_flat v = ground arith

-- What the store keeps of a chunk's own metadata.
abbrev pub scalars : Metadata → Metadata
scalars m = keep (λ (e : String × Value). is_flat e.1) m

get-scalars : (m : Metadata) (key : String) → get m key ≡ none → get (scalars m) key ≡ none
unfolding get
get-scalars [] key h = refl
get-scalars ((k, v) ∷ m) key h = ground (arith, get-scalars m key)

put_end :
    (d : Metadata) (key : String) (v : Value) → get d key ≡ none → put d key v ≡ d ++ (key, v) ∷ []
unfolding get put
put_end [] key v h = refl
put_end ((k, w) ∷ d) key v h = ground (arith, put_end d key v)

-- No key of the one is a key of the other.
abbrev Apart : Metadata → Metadata → Type 0
Apart d [] = Unit
Apart d ((key, value) ∷ rest) = (get d key ≡ none) × Apart d rest

get-append : (d e : Metadata) (key : String) → get d key ≡ none → get (d ++ e) key ≡ get e key
unfolding get
get-append [] e key h = refl
get-append ((k, w) ∷ d) e key h = ground (arith, get-append d e key)

Apart-append :
    (d : Metadata) (key : String) (v : Value) (rest : Metadata)
    → get rest key ≡ none
    → Apart d rest
    → Apart (d ++ (key, v) ∷ []) rest
unfolding get
Apart-append d key v [] h a = tt
Apart-append d key v ((k, w) ∷ rest) h a = (
  get-append d ((key, v) ∷ []) k a.0 ∙ ground (arith, h, ==_iff key k, ==_iff k key),
  Apart-append d key v rest (ground (arith, h)) a.1,
)

put_all_end : (d m : Metadata) → HasDistinctKeys m → Apart d m → put_all d m ≡ d ++ scalars m
unfolding put_all
put_all_end d [] h a = sym (append-nil d)
put_all_end d ((key, value) ∷ rest) h a = elim (Bool-cases (is_flat value)) [
  | inl kept ↦
      rw (kept, put_all)
        (ap (λ x. put_all x rest) (put_end d key value a.0)
          ∙ put_all_end (d ++ (key, value) ∷ []) rest h.1 (Apart-append d key value rest h.0 a.1)
          ∙ append_assoc d ((key, value) ∷ []) (scalars rest))
  | inr dropped ↦ rw (dropped, put_all) (put_all_end d rest h.1 a.1)
]

not_nil : (s : Text) → s ≢ [] → is_empty s ≡ false
unfolding is_empty
not_nil [] h = absurd (h refl)
not_nil (c ∷ s) h = refl

kind-Apart : (x : Value) (m : Metadata) → get m "kind" ≡ none → Apart (("kind", x) ∷ []) m
unfolding get
kind-Apart x [] h = tt
kind-Apart x ((k, v) ∷ m) h =
    (ground (arith, ==_iff k "kind", ==_iff "kind" k), kind-Apart x m (ground arith))

both-Apart :
    (x y : Value) (m : Metadata)
    → get m "kind" ≡ none
    → get m "source" ≡ none
    → Apart (("kind", x) ∷ ("source", y) ∷ []) m
unfolding get
both-Apart x y [] h k = tt
both-Apart x y ((k, v) ∷ m) h g = (
  ground (arith, ==_iff k "kind", ==_iff "kind" k, ==_iff k "source", ==_iff "source" k),
  both-Apart x y m (ground arith) (ground arith),
)

-- The chunk that a row gives, from what is found of its kind and source and what is left.
abbrev read_as : String → Text → MemoryKind → Option Text → Metadata → Chunk
read_as id content kind source metadata = record {
  id = id;
  text = content;
  kind = kind;
  source = source;
  metadata = metadata;
}

module _ (m : Metadata) (no_kind : get m "kind" ≡ none) (no_source : get m "source" ≡ none)
    (id : String) (content : Text) (kind : MemoryKind) where
  without_kind : remove (scalars m) "kind" ≡ scalars m
  without_kind = remove_absent (scalars m) "kind" (get-scalars m "kind" no_kind)

  without_source : remove (scalars m) "source" ≡ scalars m
  without_source = remove_absent (scalars m) "source" (get-scalars m "source" no_source)

  sourced_back :
      (s : Text)
      → to_chunk id content
          (("kind", Value.text (codes (kind_name kind))) ∷ ("source", Value.text s) ∷ scalars m)
        ≡ read_as id content kind (some s) (scalars m)
  unfolding to_chunk remove get source_of
  sourced_back s =
      ap
        (λ (y : Metadata).
          read_as id content (parse_kind (some (Value.text (codes (kind_name kind))))) (some s)
            (remove y "source"))
        without_kind
      ∙ ap (read_as id content (parse_kind (some (Value.text (codes (kind_name kind))))) (some s))
          without_source
      ∙ ap (λ k. read_as id content k (some s) (scalars m)) (parse_kind-kind_name kind)

  plain_back :
      to_chunk id content (("kind", Value.text (codes (kind_name kind))) ∷ scalars m)
      ≡ read_as id content kind none (scalars m)
  unfolding to_chunk remove get source_of
  plain_back =
      ap
        (λ (y : Metadata).
          read_as id content (parse_kind (some (Value.text (codes (kind_name kind)))))
            (source_of (get y "source")) (remove y "source"))
        without_kind
      ∙ ap
          (λ (o : Option Value).
            read_as id content (parse_kind (some (Value.text (codes (kind_name kind)))))
              (source_of o) (remove (scalars m) "source"))
          (get-scalars m "source" no_source)
      ∙ ap (read_as id content (parse_kind (some (Value.text (codes (kind_name kind))))) none)
          without_source
      ∙ ap (λ k. read_as id content k none (scalars m)) (parse_kind-kind_name kind)

-- The metadata of a chunk with a source, and of one without.
to_metadata-sourced :
    (c : Chunk) (s : Text)
    → IsStorable c
    → c.source ≡ some s
    → to_metadata c
      ≡ ("kind", Value.text (codes (kind_name c.kind)))
        ∷ ("source", Value.text s)
        ∷ scalars c.metadata
unfolding to_metadata own_metadata
to_metadata-sourced c s h is =
    let filled : is_empty s ≡ false = not_nil s (λ e. h.sourced (is ∙ ap some e)) in
    ap (λ o. put_all (own_metadata c.kind o) c.metadata) is
    ∙ ap
        (λ (b : Bool).
          put_all
            (if b
              then ("kind", Value.text (codes (kind_name c.kind))) ∷ []
              else ("kind", Value.text (codes (kind_name c.kind))) ∷ ("source", Value.text s) ∷ [])
            c.metadata)
        filled
    ∙ put_all_end _ c.metadata h.distinct (both-Apart _ _ c.metadata h.no_kind h.no_source)

to_metadata-plain :
    (c : Chunk)
    → IsStorable c
    → c.source ≡ none
    → to_metadata c ≡ ("kind", Value.text (codes (kind_name c.kind))) ∷ scalars c.metadata
unfolding to_metadata own_metadata
to_metadata-plain c h is =
    ap (λ o. put_all (own_metadata c.kind o) c.metadata) is
    ∙ put_all_end _ c.metadata h.distinct (kind-Apart _ c.metadata h.no_kind)

-- What the store keeps of a chunk.
abbrev pub kept_of : Chunk → Chunk
kept_of c = record c { metadata = scalars c.metadata }

to_chunk-to_metadata : (c : Chunk) → IsStorable c → to_chunk c.id c.text (to_metadata c) ≡ kept_of c
to_chunk-to_metadata c h = elim (Option-cases c.source) [
  | inl absent ↦
      ap (to_chunk c.id c.text) (to_metadata-plain c h absent)
      ∙ plain_back c.metadata h.no_kind h.no_source c.id c.text c.kind
      ∙ ap (λ o. read_as c.id c.text c.kind o (scalars c.metadata)) (sym absent)
  | inr (s, there) ↦
      ap (to_chunk c.id c.text) (to_metadata-sourced c s h there)
      ∙ sourced_back c.metadata h.no_kind h.no_source c.id c.text c.kind s
      ∙ ap (λ o. read_as c.id c.text c.kind o (scalars c.metadata)) (sym there)
]

-- The answer of Chroma for chunks at some distances.
abbrev pub raw_of : List (Chunk × ℤ) → Raw
raw_of hits = record {
  ids = map (λ (h : Chunk × ℤ). h.0.id) hits ∷ [];
  documents = map (λ (h : Chunk × ℤ). h.0.text) hits ∷ [];
  metadatas = map (λ (h : Chunk × ℤ). some (to_metadata h.0)) hits ∷ [];
  distances = map (λ (h : Chunk × ℤ). h.1) hits ∷ [];
}

abbrev pub scored : Chunk × ℤ → RetrievedChunk
scored h = record { chunk = kept_of h.0; score = similarity h.1 }

-- What Chroma gives back of stored chunks is read as those chunks, in their order, each with its
-- id, text, kind and source, with those of its metadata whose values are scalars, as the store
-- drops the others, and with the similarity of its distance, and those that score below the
-- threshold are left out; this holds of chunks whose metadata has distinct keys, as a dictionary
-- has, and none that is a key of the store's own, and whose source is not the empty text.
pub to_results-to_metadata :
    (min_score : ℕ) (hits : List (Chunk × ℤ))
    → All (λ (h : Chunk × ℤ). IsStorable h.0) hits
    → to_results min_score (raw_of hits)
      ≡ keep (λ (r : RetrievedChunk). leb min_score r.score) (map scored hits)
unfolding to_results rows
to_results-to_metadata min_score [] h = refl
to_results-to_metadata min_score ((c, d) ∷ hits) h =
    let rest = to_results-to_metadata min_score hits h.1 in
    elim (Bool-cases (ltb (similarity d) min_score)) [
      | inl low ↦
          let dropped : leb min_score (similarity d) ≡ false = ground arith in
          rw (low, dropped) rest
      | inr high ↦
          let kept : leb min_score (similarity d) ≡ true = ground arith in
          rw (high, kept)
            (ap
                (λ (x : Chunk).
                  record { chunk = x; score = similarity d } ∷ to_results min_score (raw_of hits))
                (to_chunk-to_metadata c h.0)
              ∙ ap (λ r. record { chunk = kept_of c; score = similarity d } ∷ r) rest)
    ]
