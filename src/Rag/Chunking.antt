-- ===== src/Rag/Chunking.antt =====
-- bat/services/rag/chunking.py: `RecursiveChunker`. Texts are of ASCII, as far as white space goes.
use mathlib.Core.List.{reverse}
use bat_ai.Prelude.{
  ℕ, zero, suc, ◌+◌, ◌-◌, ◌/◌, max, Bool, true, false, ◌&&◌, ◌||◌, not, List, [], ◌∷◌, ◌++◌, Option,
  none, some, if◌then◌else◌, leb, ltb, nat_beq, length, take, drop, keep, map,
}
use bat_ai.Prelude.Text.{Text, codes, strip, concat}

unfoldable pub is_empty {ℓ} : {A : Type ℓ} → List A → Bool
is_empty [] = true
is_empty (x ∷ xs) = false

starts_lf : Text → Bool
starts_lf [] = false
starts_lf (c ∷ s) = nat_beq c 10

-- `replace("\r\n", "\n")`
drop_cr : Text → Text
unfolding starts_lf
drop_cr [] = []
drop_cr (c ∷ s) = let rest = drop_cr s in if nat_beq c 13 && starts_lf s then rest else c ∷ rest

is_blank : ℕ → Bool
is_blank c = nat_beq c 32 || nat_beq c 9

-- `[ \t]+` by a space, after a blank or not.
squeeze_blanks : Bool → Text → Text
unfolding is_blank
squeeze_blanks inside [] = []
squeeze_blanks inside (c ∷ s) =
    let rest = squeeze_blanks (is_blank c) s in
    if is_blank c then (if inside then rest else 32 ∷ rest) else c ∷ rest

-- `\n{3,}` by two line feeds, after as many line feeds.
squeeze_lines : ℕ → Text → Text
squeeze_lines n [] = []
squeeze_lines n (c ∷ s) =
    let rest = squeeze_lines (if nat_beq c 10 then n + 1 else 0) s in
    if nat_beq c 10 && leb 2 n then rest else c ∷ rest

unfoldable pub normalize : Text → Text
unfolding drop_cr squeeze_blanks squeeze_lines
normalize text =
    let unified = map (λ c. if nat_beq c 13 then 10 else c) (drop_cr text) in
    strip (squeeze_lines 0 (squeeze_blanks false unified))

-- `DEFAULT_SEPARATORS`
abbrev pub default_separators : List Text
default_separators =
    (10 ∷ 10 ∷ []) ∷ (10 ∷ []) ∷ codes ". " ∷ codes "? " ∷ codes "! " ∷ codes "; " ∷ codes " " ∷ []

pub record Chunker : Type 0 where
  pub chunk_size : ℕ
  pub chunk_overlap : ℕ
  pub separators : List Text

-- The constructor; `none` is its `ValueError`.
unfoldable pub make : ℕ → ℕ → Option Chunker
make size overlap =
    if leb size 0
    then none
    else if leb size overlap
    then none
    else some
        (record { chunk_size = size; chunk_overlap = overlap; separators = default_separators })

starts_with : Text → Text → Bool
starts_with [] s = true
starts_with (p ∷ ps) [] = false
starts_with (p ∷ ps) (c ∷ s) = nat_beq p c && starts_with ps s

push : ℕ → List Text → List Text
push c [] = (c ∷ []) ∷ []
push c (p ∷ ps) = (c ∷ p) ∷ ps

-- The parts of a text from here on, when as many characters are still of the separator.
split_from : Text → ℕ → Text → List Text
unfolding starts_with push
split_from sep skip [] = [] ∷ []
split_from sep (suc skip) (c ∷ s) = split_from sep skip s
split_from sep zero (c ∷ s) =
    let hit = starts_with sep (c ∷ s) in
    let rest = split_from sep (if hit then length sep - 1 else 0) s in
    if hit then [] ∷ rest else push c rest

-- `text.split(sep)`, of a separator that is not empty.
unfoldable pub split_on : Text → Text → List Text
unfolding split_from
split_on sep text = split_from sep 0 text

-- `[text[i : i + size] for i in range(0, len(text), size)]`, a window for each unit of fuel.
unfoldable pub windows : ℕ → ℕ → Text → List Text
windows zero size text = []
windows (suc fuel) size [] = []
windows (suc fuel) size (c ∷ s) = take size (c ∷ s) ∷ windows fuel size (drop size (c ∷ s))

unfoldable pub whole : Text → List Text
unfolding is_empty
whole text = if is_empty text then [] else text ∷ []

-- The body of the loop over the parts.
unfoldable pub piece : ℕ → Text → (Text → List Text) → Text → List Text
unfolding is_empty
piece size head finer part =
    if is_empty part
    then []
    else (let candidate = if is_empty (strip head) then part else part ++ head in
        if leb (length candidate) size then candidate ∷ [] else finer candidate)

unfoldable pub pieces : (Text → List Text) → List Text → List Text
pieces f [] = []
pieces f (part ∷ parts) = f part ++ pieces f parts

-- `_atomize`; a text has at most as many windows as characters.
unfoldable pub atomize : ℕ → List Text → Text → List Text
unfolding whole windows pieces piece split_on
atomize size [] text =
    if leb (length text) size then whole text else windows (length text) size text
atomize size (head ∷ rest) text =
    if leb (length text) size
    then whole text
    else pieces (piece size head (atomize size rest)) (split_on head text)

-- The variables of `_merge`.
pub record Packing : Type 0 where
  pub chunks : List Text
  pub current : List Text
  pub length : ℕ

-- `s[-n:]`, of an n that is not 0.
unfoldable pub suffix : ℕ → Text → Text
suffix n s = drop (length s - n) s

-- The walk backwards, over the reversed pieces.
unfoldable pub carry_from : ℕ → ℕ → List Text → List Text × ℕ
carry_from overlap carried [] = ([], carried)
carry_from overlap carried (p ∷ ps) =
    let (carry, total) = carry_from overlap (carried + length p) ps in
    if ltb overlap (carried + length p) then ([], carried) else (carry ++ p ∷ [], total)

unfoldable pub last_piece : List Text → Text
last_piece [] = []
last_piece (p ∷ []) = p
last_piece (p ∷ q ∷ ps) = last_piece (q ∷ ps)

-- What a chunk carries over to the next, before the piece that follows is looked at.
unfoldable pub carry_over : ℕ → List Text → List Text × ℕ
unfolding carry_from suffix last_piece is_empty
carry_over overlap current =
    let (carry, carried) = carry_from overlap 0 (reverse current) in
    if is_empty carry && ltb 0 overlap
    then (suffix overlap (last_piece current) ∷ [], length (suffix overlap (last_piece current)))
    else (carry, carried)

-- The overlap yields when it would push the next chunk past the limit.
unfoldable pub yield_to : ℕ → ℕ → List Text × ℕ → List Text × ℕ
yield_to size n (carry, carried) = if ltb size (carried + n) then ([], 0) else (carry, carried)

unfoldable pub flush : Chunker → Packing → ℕ → Packing
unfolding carry_over yield_to
flush c s n =
    let (current, total) = yield_to c.chunk_size n (carry_over c.chunk_overlap s.current) in
    record { chunks = s.chunks ++ strip (concat s.current) ∷ []; current = current; length = total }

unfoldable pub add : Packing → Text → Packing
add s p = record s { current = s.current ++ p ∷ []; length = s.length + length p }

-- The body of the loop of `_merge`.
unfoldable pub pack : Chunker → Packing → Text → Packing
unfolding flush add is_empty
pack c s p =
    add
      (if ltb c.chunk_size (s.length + length p) && not (is_empty s.current)
        then flush c s (length p)
        else s)
      p

unfoldable pub pack_all : Chunker → Packing → List Text → Packing
unfolding pack
pack_all c s [] = s
pack_all c s (p ∷ ps) = pack_all c (pack c s p) ps

-- The end of `_merge`.
unfoldable pub finish : Packing → List Text
unfolding whole is_empty
finish s = keep (λ t. not (is_empty t)) (s.chunks ++ whole (strip (concat s.current)))

unfoldable pub merge : Chunker → List Text → List Text
unfolding pack_all finish
merge c ps = finish (pack_all c (record { chunks = []; current = []; length = 0 }) ps)

unfoldable pub split : Chunker → Text → List Text
unfolding normalize atomize merge is_empty
split c text =
    let cleaned = normalize text in
    if is_empty cleaned
    then []
    else if leb (length cleaned) c.chunk_size
    then cleaned ∷ []
    else merge c (atomize c.chunk_size c.separators cleaned)

unfoldable pub estimate_tokens : Text → ℕ
estimate_tokens text = max 1 ((length text + 3) / 4)
