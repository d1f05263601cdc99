-- ===== src/Streaming/Lines.antt =====
-- `_binary_lines` of claimci/analysis/adapters/streaming.py: a generator over the blocks that a scan
-- reads, as the list of what it does. Bytes are numbers below 256.
use claim_ci.Prelude.{
  ℕ, ◌+◌, ◌-◌, ◌≡◌, refl, Bool, false, ltb, ◌==◌, min, List, [], ◌∷◌, ◌++◌, length, if◌then◌else◌,
}

-- What the generator does: it takes a block, with the later blocks unread, notes how much is
-- buffered, yields a line with the bytes it took up, or stops at LOGICAL_RECORD_LIMIT.
pub data Step : Type 0 where
  takes : List ℕ → List (List ℕ) → Step
  notes : ℕ → Step
  yields : List ℕ → ℕ → Step
  halts : Step

-- A block cut at its newlines: lines that end, and the rest, which does not.
pub data Segments : Type 0 where
  unended : List ℕ → Segments
  ended : List ℕ → Segments → Segments

abbrev pub newline : ℕ
newline = 10

abbrev carriage_return : ℕ
carriage_return = 13

unfoldable pub push : ℕ → Segments → Segments
push b (unended s) = unended (b ∷ s)
push b (ended s rest) = ended (b ∷ s) rest

-- `block.find(b"\n", cursor)` for every cursor
unfoldable pub segments : List ℕ → Segments
unfolding push
segments [] = unended []
segments (b ∷ block) =
    let rest = segments block in if b == newline then ended [] rest else push b rest

-- `line.endswith(b"\r")`
unfoldable pub ends_cr : List ℕ → Bool
ends_cr [] = false
ends_cr (b ∷ []) = b == carriage_return
ends_cr (b ∷ c ∷ line) = ends_cr (c ∷ line)

-- `line[:-1]`
unfoldable pub drop_last : List ℕ → List ℕ
drop_last [] = []
drop_last (b ∷ []) = []
drop_last (b ∷ c ∷ line) = b ∷ drop_last (c ∷ line)

unfoldable pub without_cr : List ℕ → List ℕ
unfolding ends_cr drop_last
without_cr line = if ends_cr line then drop_last line else line

-- The end of the file: a last line without a newline is yielded as it is.
unfoldable pub last_line : ℕ → List ℕ → ℕ → List Step
last_line maximum [] physical = []
last_line maximum (b ∷ line) physical =
    if ltb maximum (length (b ∷ line)) then halts ∷ [] else yields (b ∷ line) physical ∷ []

unfoldable pub buffered : List ℕ → ℕ
unfolding ends_cr
buffered line = if ends_cr line then length line - 1 else length line

-- The loop over one block; `next` is what happens at its end.
unfoldable pub over_segments : ℕ → (List ℕ → ℕ → List Step) → List ℕ → ℕ → Segments → List Step
unfolding without_cr buffered
over_segments maximum next line physical (unended []) = next line physical
over_segments maximum next line physical (unended (b ∷ segment)) =
    let longer = line ++ b ∷ segment in
    if ltb (maximum + 1) (length line + length (b ∷ segment))
    then notes (min (length line) maximum) ∷ halts ∷ []
    else notes (buffered longer) ∷ next longer (physical + length (b ∷ segment))
over_segments maximum next line physical (ended segment rest) =
    let later = over_segments maximum next [] 0 rest in
    let longer = line ++ segment in
    if ltb (maximum + 1) (length line + length segment)
    then notes (min (length line) maximum) ∷ halts ∷ []
    else notes (buffered longer)
      ∷ (if ltb maximum (length (without_cr longer))
          then halts ∷ []
          else yields (without_cr longer) (physical + length segment + 1) ∷ later)

-- A block that is empty is the end of the file.
unfoldable pub lines_from : ℕ → List ℕ → ℕ → List (List ℕ) → List Step
unfolding last_line over_segments segments
lines_from maximum line physical [] = takes [] [] ∷ last_line maximum line physical
lines_from maximum line physical ([] ∷ blocks) = takes [] [] ∷ last_line maximum line physical
lines_from maximum line physical ((b ∷ block) ∷ blocks) =
    takes (b ∷ block) blocks
    ∷ over_segments maximum (λ longer bytes. lines_from maximum longer bytes blocks) line physical
        (segments (b ∷ block))

unfoldable pub binary_lines : ℕ → List (List ℕ) → List Step
unfolding lines_from
binary_lines maximum blocks = lines_from maximum [] 0 blocks

two_lines :
    binary_lines 3 ((65 ∷ 13 ∷ []) ∷ (10 ∷ 66 ∷ []) ∷ [])
    ≡ takes (65 ∷ 13 ∷ []) ((10 ∷ 66 ∷ []) ∷ [])
      ∷ notes 1
      ∷ takes (10 ∷ 66 ∷ []) []
      ∷ notes 1
      ∷ yields (65 ∷ []) 3
      ∷ notes 1
      ∷ takes [] []
      ∷ yields (66 ∷ []) 1
      ∷ []
unfolding binary_lines
two_lines = refl
