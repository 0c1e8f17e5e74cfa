-- ===== src/Rag/Bounds.antt =====
-- The size of the chunks that bat/services/rag/chunking.py makes.
use mathlib.Core.List.{reverse, reverse-cons}
use bat_ai.Prelude.{
  take, take-append-drop, drop, length-drop, ap, refl, ◌<◌, ℕ, zero, suc, ◌+◌, ◌≤◌, ◌≡◌, ◌∙◌, Bool,
  true, false, ◌&&◌, not, List, [], ◌∷◌, ◌++◌, arith, inl, inr, if◌then◌else◌, if_cases, if_rule,
  leb, ltb, leb→le, length, keep, All, All-append, length-append, length-take, Bool-cases,
}
use bat_ai.Prelude.Text.{Text, lstrip, strip, concat}
use bat_ai.Rag.Chunking.{
  Chunker, Packing, is_empty, normalize, split_on, windows, whole, piece, pieces, atomize, suffix,
  last_piece, carry_from, carry_over, yield_to, flush, add, pack, pack_all, finish, merge, split,
}

length-reverse : (s : Text) → length (reverse s) ≡ length s
length-reverse [] = refl
length-reverse (c ∷ s) =
    ap length (reverse-cons c s)
    ∙ omega (arith, length-append (reverse s) (c ∷ []), length-reverse s)

length-lstrip-le : (s : Text) → length (lstrip s) ≤ length s
unfolding lstrip
length-lstrip-le [] = omega arith
length-lstrip-le (c ∷ s) = ground (arith, length-lstrip-le s)

length-strip-le : (s : Text) → length (strip s) ≤ length s
unfolding strip
length-strip-le s = omega (
  arith,
  length-reverse (lstrip (reverse (lstrip s))),
  length-lstrip-le (reverse (lstrip s)),
  length-reverse (lstrip s),
  length-lstrip-le s,
)

module _ (size : ℕ) where
  abbrev Fits : Text → Type 0
  Fits t = length t ≤ size

  whole-Fits : (t : Text) → Fits t → All Fits (whole t)
  unfolding whole
  whole-Fits t h = if_rule (All Fits) (is_empty t) [] (t ∷ []) tt (h, tt)

  windows-Fits : (fuel : ℕ) (t : Text) → All Fits (windows fuel size t)
  unfolding windows
  windows-Fits zero t = tt
  windows-Fits (suc fuel) [] = tt
  windows-Fits (suc fuel) (c ∷ s) =
      (omega (arith, length-take size (c ∷ s)), windows-Fits fuel (drop size (c ∷ s)))

  pieces-Fits :
      (f : Text → List Text)
      → ((t : Text) → All Fits (f t))
      → (ts : List Text) → All Fits (pieces f ts)
  unfolding pieces
  pieces-Fits f h [] = tt
  pieces-Fits f h (t ∷ ts) = All-append Fits (f t) (pieces f ts) (h t) (pieces-Fits f h ts)

  piece-Fits :
      (head : Text) (finer : Text → List Text)
      → ((t : Text) → All Fits (finer t))
      → (part : Text) → All Fits (piece size head finer part)
  unfolding piece
  piece-Fits head finer h part = if_rule (All Fits) (is_empty part) _ _ tt (
      if_cases (All Fits) (leb (length (if is_empty (strip head) then part else part ++ head)) size)
        _ _ (λ fits. (leb→le _ size fits, tt)) (λ long. h _))

  -- Each piece is no longer than a chunk may be.
  atomize-Fits : (separators : List Text) (t : Text) → All Fits (atomize size separators t)
  unfolding atomize
  atomize-Fits [] t =
      if_cases (All Fits) (leb (length t) size) _ _ (λ fits. whole-Fits t (leb→le _ size fits))
        (λ long. windows-Fits (length t) t)
  atomize-Fits (head ∷ rest) t =
      if_cases (All Fits) (leb (length t) size) _ _ (λ fits. whole-Fits t (leb→le _ size fits))
        (λ long.
          pieces-Fits (piece size head (atomize size rest))
            (piece-Fits head (atomize size rest) (atomize-Fits rest)) (split_on head t))

  keep-Fits :
      (p : Text → Bool) (ts : List Text)
      → All Fits ts
      → All (λ t. (p t ≡ true) × Fits t) (keep p ts)
  keep-Fits p [] h = tt
  keep-Fits p (t ∷ ts) h =
      if_cases (All (λ t. (p t ≡ true) × Fits t)) (p t) _ _
        (λ kept. ((kept, h.0), keep-Fits p ts h.1)) (λ lost. keep-Fits p ts h.1)

-- The windows of a text, with its length as the fuel or more and a size that is not zero, are the
-- whole text, cut.
pub windows-whole :
    (fuel size : ℕ) (t : Text) → 0 < size → length t ≤ fuel → concat (windows fuel size t) ≡ t
unfolding windows concat
windows-whole zero size [] h k = refl
windows-whole zero size (c ∷ t) h k = absurd (omega (arith, k))
windows-whole (suc fuel) size [] h k = refl
windows-whole (suc fuel) size (c ∷ t) h k =
    ap (λ rest. take size (c ∷ t) ++ rest)
      (windows-whole fuel size (drop size (c ∷ t)) h
        (omega (arith, length-drop size (c ∷ t), h, k)))
    ∙ take-append-drop size (c ∷ t)

length-concat :
    (ps : List Text) (p : Text) → length (concat (ps ++ p ∷ [])) ≡ length (concat ps) + length p
unfolding concat
length-concat [] p = omega (arith, length-append p [])
length-concat (q ∷ ps) p = omega (
  arith,
  length-append q (concat (ps ++ p ∷ [])),
  length-append q (concat ps),
  length-concat ps p,
)

concat-empty : (ps : List Text) → is_empty ps ≡ true → concat ps ≡ []
unfolding is_empty concat
concat-empty [] h = refl
concat-empty (p ∷ ps) h = cc

carry_from-counted :
    (overlap carried : ℕ) (ps : List Text)
    → (carry_from overlap carried ps).1
      ≡ carried + length (concat (carry_from overlap carried ps).0)
unfolding carry_from concat
carry_from-counted overlap carried [] = omega arith
carry_from-counted overlap carried (p ∷ ps) =
    if_rule (λ (x : List Text × ℕ). x.1 ≡ carried + length (concat x.0))
      (ltb overlap (carried + length p)) _ _ (omega arith)
      (omega (
        arith,
        length-concat (carry_from overlap (carried + length p) ps).0 p,
        carry_from-counted overlap (carried + length p) ps,
      ))

abbrev IsCounted : List Text × ℕ → Type 0
IsCounted x = x.1 ≡ length (concat x.0)

carry_over-IsCounted : (overlap : ℕ) (current : List Text) → IsCounted (carry_over overlap current)
unfolding carry_over concat
carry_over-IsCounted overlap current =
    if_rule IsCounted (is_empty (carry_from overlap 0 (reverse current)).0 && ltb 0 overlap) _ _
      (omega (arith, length-append (suffix overlap (last_piece current)) []))
      (omega (arith, carry_from-counted overlap 0 (reverse current)))

yield_to-IsCounted : (size n : ℕ) (x : List Text × ℕ) → IsCounted x → IsCounted (yield_to size n x)
unfolding yield_to concat
yield_to-IsCounted size n (carry, carried) h = if_rule IsCounted (ltb size (carried + n)) _ _ refl h

yield_to-le : (size n : ℕ) (x : List Text × ℕ) → n ≤ size → (yield_to size n x).1 + n ≤ size
unfolding yield_to
yield_to-le size n (carry, carried) h = ground arith

-- What holds between two pieces: the length is that of the pieces that are open, which fit, and so
-- do the chunks that are closed.
record IsPacked (c : Chunker) (s : Packing) : Type 0 where
  counted : s.length ≡ length (concat s.current)
  fits : s.length ≤ c.chunk_size
  closed : All (Fits c.chunk_size) s.chunks

module _ (c : Chunker) where
  add-IsPacked :
      (s : Packing) (p : Text)
      → s.length ≡ length (concat s.current)
      → s.length + length p ≤ c.chunk_size
      → All (Fits c.chunk_size) s.chunks
      → IsPacked c (add s p)
  unfolding add
  add-IsPacked s p counted fits closed = record {
    counted = omega (arith, counted, length-concat s.current p);
    fits = fits;
    closed = closed;
  }

  flush-IsPacked :
      (s : Packing) (p : Text)
      → length p ≤ c.chunk_size
      → IsPacked c s
      → IsPacked c (add (flush c s (length p)) p)
  unfolding flush
  flush-IsPacked s p short h =
      add-IsPacked (flush c s (length p)) p
        (yield_to-IsCounted c.chunk_size (length p) _
          (carry_over-IsCounted c.chunk_overlap s.current))
        (yield_to-le c.chunk_size (length p) (carry_over c.chunk_overlap s.current) short)
        (All-append (Fits c.chunk_size) s.chunks _ h.closed
          (omega (arith, length-strip-le (concat s.current), h.counted, h.fits), tt))

  stay-IsPacked :
      (s : Packing) (p : Text)
      → length p ≤ c.chunk_size
      → (ltb c.chunk_size (s.length + length p) && not (is_empty s.current)) ≡ false
      → IsPacked c s
      → IsPacked c (add s p)
  stay-IsPacked s p short stays h =
      add-IsPacked s p h.counted
        (elim (Bool-cases (is_empty s.current)) [
          | inl empty ↦ omega (arith, short, h.counted, ap length (concat-empty s.current empty))
          | inr full ↦ ground (arith, full)
        ])
        h.closed

  pack-IsPacked :
      (s : Packing) (p : Text) → length p ≤ c.chunk_size → IsPacked c s → IsPacked c (pack c s p)
  unfolding pack
  pack-IsPacked s p short h =
      elim (Bool-cases (ltb c.chunk_size (s.length + length p) && not (is_empty s.current))) [
        | inl full ↦ rw full (flush-IsPacked s p short h)
        | inr stays ↦ rw stays (stay-IsPacked s p short stays h)
      ]

  pack_all-IsPacked :
      (s : Packing) (ps : List Text)
      → All (Fits c.chunk_size) ps
      → IsPacked c s
      → IsPacked c (pack_all c s ps)
  unfolding pack_all
  pack_all-IsPacked s [] h k = k
  pack_all-IsPacked s (p ∷ ps) h k = pack_all-IsPacked (pack c s p) ps h.1 (pack-IsPacked s p h.0 k)

  abbrev pub IsChunk : Text → Type 0
  IsChunk t = (not (is_empty t) ≡ true) × (length t ≤ c.chunk_size)

  finish-IsChunk : (s : Packing) → IsPacked c s → All IsChunk (finish s)
  unfolding finish
  finish-IsChunk s h = keep-Fits c.chunk_size _ _ (
      All-append (Fits c.chunk_size) s.chunks _ h.closed (
        whole-Fits c.chunk_size (strip (concat s.current))
          (omega (arith, length-strip-le (concat s.current), h.counted, h.fits))))

  -- Whatever the text and the separators, no chunk is empty and none is longer than the chunk size.
  pub split-IsChunk : (text : Text) → All IsChunk (split c text)
  unfolding split merge concat
  split-IsChunk text =
      if_cases (All IsChunk) (is_empty (normalize text)) _ _ (λ none_left. tt)
        (λ some_left.
          if_cases (All IsChunk) (leb (length (normalize text)) c.chunk_size) _ _
            (λ short. ((ap not some_left, leb→le _ _ short), tt))
            (λ long. finish-IsChunk _ (
              pack_all-IsPacked _ _ (atomize-Fits c.chunk_size c.separators (normalize text))
                (record { counted = refl; fits = omega arith; closed = tt }))))
