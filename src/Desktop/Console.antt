-- ===== src/Desktop/Console.antt =====
-- main.py and the memory of core/brain.py: the lines that the user types, one after the other. The
-- files of the machine, the digest of a chunk's id and the reading of the clock are parameters;
-- what goes to the error stream is left out.
use mathlib.Core.List.{reverse}
use bat_ai.Prelude.{
  ◌≡◌, refl, ℕ, true, false, ◌||◌, List, [], ◌∷◌, ◌++◌, Option, none, some, String, if◌then◌else◌,
  nat_beq, map, is_some, option_cases, if_rule, arith,
}
use bat_ai.Prelude.Text.{Text, codes, strip, concat, decimal, text_beq}
use bat_ai.Agent.Prompt.{Runner, lower}
use bat_ai.Rag.Chunking.{Chunker, is_empty}
use bat_ai.Rag.Vectors.{Spaces, Embedding, document}
use bat_ai.Rag.Pipeline.{ingest, remember_fact, forget_tenant}
use bat_ai.Desktop.Brain.{Brain, Draws, local_tenant, stream}

-- `s.partition(" ")`, without the separator.
unfoldable pub before_space : Text → Text
before_space [] = []
before_space (c ∷ s) = let rest = before_space s in if nat_beq c b' ' then [] else c ∷ rest

unfoldable pub after_space : Text → Text
after_space [] = []
after_space (c ∷ s) = let rest = after_space s in if nat_beq c b' ' then s else rest

-- `s.strip(c)`
unfoldable pub strip_start : ℕ → Text → Text
strip_start q [] = []
strip_start q (c ∷ s) = let rest = strip_start q s in if nat_beq c q then rest else c ∷ s

unfoldable pub strip_of : ℕ → Text → Text
unfolding strip_start
strip_of q s = reverse (strip_start q (reverse (strip_start q s)))

pub data Command : Type 0 where
  read : Text → Command
  remember : Text → Command
  forget : Command
  help : Command

-- The cases of `_command`, by the verb and its argument.
unfoldable pub command_of : Text → Text → Command
command_of verb argument =
    if text_beq verb (codes "read")
    then (if is_empty argument then help else read argument)
    else if text_beq verb (codes "remember")
    then (if is_empty argument then help else remember argument)
    else if text_beq verb (codes "forget")
    then forget
    else help

-- The command that a line is, if it is one.
unfoldable pub parse : Text → Option Command
unfolding before_space after_space command_of
parse [] = none
parse (c ∷ s) =
    if nat_beq c b':'
    then some (command_of (map lower (before_space s)) (strip (after_space s)))
    else none

-- What is read of a file at a path: its text, or the message of the exception.
pub data File : Type 0 where
  missing : File
  unreadable : Text → File
  contents : Text → File

-- What the machine is besides its memory and the agent.
pub record Parts (V : Type 0) : Type 0 where
  pub embedding : Embedding V
  pub digest : Text → String
  pub chunker : Chunker
  pub files : Text → File
  pub file_name : Text → Text

pub record Desk (V W : Type 0) : Type 0 where
  pub brain : Brain
  pub memory : Spaces V
  pub world : W
  pub printed : List Text

-- What a line leads to: the next one, or the end.
pub data Next (V W : Type 0) : Type 0 where
  goes_on : Desk V W → Next V W
  stops : Desk V W → Next V W

indexed : Text → Option ℕ → Option Text
indexed name none = none
indexed name (some n) =
    some (codes "Indexed " ++ (decimal n ++ (codes " chunk(s) from " ++ (name ++ codes "."))))

stored : Option ℕ → Option Text
stored none = none
stored (some n) = some (codes "Stored (" ++ (decimal n ++ codes " chunk(s))."))

module _ {V : Type 0} (parts : Parts V) (now : String) where
  -- What `read_document` makes of a file; no answer when the ingestion raises.
  unfoldable pub read_file : Text → File → Spaces V → Option Text × Spaces V
  unfolding indexed
  read_file target missing memory =
      (some (codes "Cannot find a file at " ++ (target ++ codes ".")), memory)
  read_file target (unreadable message) memory = (
    some (codes "Failed to read " ++ (parts.file_name target ++ (codes ": " ++ message))),
    memory,
  )
  read_file target (contents text) memory =
      if is_empty (strip text)
      then (some (parts.file_name target ++ codes " is empty or has no extractable text."), memory)
      else (let (written, memory') =
            ingest parts.embedding parts.digest parts.chunker now memory local_tenant text document
              (some (parts.file_name target)) [] in
          (indexed (parts.file_name target) written, memory'))

  -- `read_document`; a path may stand in quotes.
  unfoldable pub read_document : Text → Spaces V → Option Text × Spaces V
  unfolding read_file strip_of
  read_document path memory =
      let target = strip_of 39 (strip_of 34 (strip path)) in
      read_file target (parts.files target) memory

  -- What a command prints, if it does not raise, and what it leaves of the memory.
  unfoldable pub obey : Command → Spaces V → Option Text × Spaces V
  unfolding read_document stored
  obey (read path) memory = read_document path memory
  obey (remember fact) memory =
      let (written, memory') =
        remember_fact parts.embedding parts.digest parts.chunker now memory local_tenant fact in
      (stored written, memory')
  obey forget memory = (some (codes "Memory erased."), forget_tenant memory local_tenant)
  obey help memory = (some (codes "Commands: :read <path> | :remember <fact> | :forget"), memory)

-- The model's name and the tokens that it is shown to say.
abbrev spoken : Text → List Text → Text
spoken name texts = codes "\n" ++ (name ++ (codes ": " ++ (concat texts ++ codes "\n\n")))

module _ {V W : Type 0} where
  unfoldable pub say : Text → Desk V W → Desk V W
  say line d = record d { printed = d.printed ++ line ∷ [] }

  show : Option Text → Desk V W → Desk V W
  unfolding say
  show none d = d
  show (some line) d = say line d

  -- `_command`, for a line that is a command; an exception is reported and the loop goes on.
  unfoldable pub command : Parts V → String → Command → Desk V W → Desk V W
  unfolding obey show
  command parts now c d =
      let (line, memory') = obey parts now c d.memory in show line (record d { memory = memory' })

  -- A question, to the agent over the memory as it is. A cancellation ends the loop; what was shown of
  -- the answer by then is left out.
  unfoldable pub question : (Spaces V → Runner W) → Draws → Text → Desk V W → Next V W
  unfolding say stream
  question agent draws line d =
      let t = stream (agent d.memory) draws line d.brain d.world in
      let after_turn = record d { brain = t.brain; world = t.world } in
      elim t.reply [
        | none ↦ stops after_turn
        | some texts ↦ goes_on (say (spoken (codes d.brain.settings.model.name) texts) after_turn)
      ]

  -- One line, without the space round it.
  unfoldable pub handle_line :
      Parts V → String → (Spaces V → Runner W) → Draws → Text → Desk V W → Next V W
  unfolding parse command question
  handle_line parts now agent draws line d =
      if is_empty line
      then goes_on d
      else if text_beq (map lower line) (codes "exit") || text_beq (map lower line) (codes "quit")
      then stops d
      else elim (parse line) [
        | some c ↦ goes_on (command parts now c d)
        | none ↦ question agent draws line d
      ]

  -- The `while` loop over the lines that are typed, each with the draws of its turn; the end of the
  -- input ends it.
  unfoldable pub lines_loop :
      Parts V → String → (Spaces V → Runner W) → List (Text × Draws) → Desk V W → Desk V W
  unfolding handle_line
  lines_loop parts now agent [] d = d
  lines_loop parts now agent ((line, draws) ∷ lines) d =
      elim (handle_line parts now agent draws (strip line) d) [
        | stops d' ↦ d'
        | goes_on d' ↦ lines_loop parts now agent lines d'
      ]

  -- Where the desk stands after a line.
  abbrev pub desk_of : Next V W → Desk V W
  desk_of (goes_on d) = d
  desk_of (stops d) = d

  show-same :
      (line : Option Text) (d : Desk V W)
      → ((show line d).brain ≡ d.brain) × ((show line d).world ≡ d.world)
  unfolding show say
  show-same none d = (refl, refl)
  show-same (some line) d = (refl, refl)

  question-memory :
      (agent : Spaces V → Runner W) (draws : Draws) (line : Text) (d : Desk V W)
      → (desk_of (question agent draws line d)).memory ≡ d.memory
  unfolding question say
  question-memory agent draws line d =
      option_cases (λ (n : Next V W). (desk_of n).memory ≡ d.memory)
        (stream (agent d.memory) draws line d.brain d.world).reply _ _ (λ _. refl) (λ texts _. refl)

  -- A line that starts with a colon is a command, known or not, and never reaches the model: it
  -- leaves the history and the agent's world alone. Any other line leaves the memory alone.
  handle_line_lem :
      (parts : Parts V) (now : String) (agent : Spaces V → Runner W) (draws : Draws) (line : Text)
      (d : Desk V W)
      → let d' = desk_of (handle_line parts now agent draws line d) in
        (is_some (parse line) ≡ true → (d'.brain ≡ d.brain) × (d'.world ≡ d.world))
        × (is_some (parse line) ≡ false → d'.memory ≡ d.memory)
  unfolding handle_line command
  handle_line_lem parts now agent draws line d = if_rule (Apart d) (is_empty line) _ _ (same d) (
      if_rule (Apart d)
        (text_beq (map lower line) (codes "exit") || text_beq (map lower line) (codes "quit")) _ _
        (same d)
        (option_cases (Apart d) (parse line) _ _
          (λ absent. (
            (λ known. absurd (ground (arith, absent, known))),
            (λ _. question-memory agent draws line d),
          ))
          (λ c there.
            ((λ _. show-same _ _), (λ unknown. absurd (ground (arith, there, unknown)))))))
    where
      Apart : Desk V W → Next V W → Type 0
      Apart d n =
          (is_some (parse line) ≡ true
            → ((desk_of n).brain ≡ d.brain) × ((desk_of n).world ≡ d.world))
          × (is_some (parse line) ≡ false → (desk_of n).memory ≡ d.memory)

      same : (d : Desk V W) → Apart d (goes_on d)
      same d = ((λ _. (refl, refl)), (λ _. refl))
