-- ===== src/Streaming/Framing.antt =====
-- The lines that `_binary_lines` yields, and the same lines cut from the whole file.
use claim_ci.Prelude.{
  ℕ, ◌+◌, ◌≤◌, ◌<◌, ◌≡◌, refl, ap, ◌∙◌, sym, false, ltb, ◌==◌, List, [], ◌∷◌, ◌++◌, length, arith,
  if◌then◌else◌, length-append, Bool-cases, inl, inr,
}
use mathlib.Core.List.{append_assoc, append-nil}
use claim_ci.Streaming.Lines.{
  Step, takes, notes, yields, halts, Segments, unended, ended, newline, push, segments, without_cr,
  drop_last, last_line, over_segments, lines_from, binary_lines,
}

-- What a consumer is given: the lines, and where the generator stops.
unfoldable pub given : List Step → List Step
given [] = []
given (takes block unread ∷ steps) = given steps
given (notes n ∷ steps) = given steps
given (yields line bytes ∷ steps) = yields line bytes ∷ given steps
given (halts ∷ steps) = halts ∷ given steps

-- The bytes of the file.
unfoldable pub bytes_of : List (List ℕ) → List ℕ
bytes_of [] = []
bytes_of ([] ∷ blocks) = []
bytes_of ((b ∷ block) ∷ blocks) = (b ∷ block) ++ bytes_of blocks

-- A line that ended with a newline, and what follows it.
unfoldable pub ended_line : ℕ → List ℕ → List Step → List Step
ended_line maximum line rest =
    if ltb maximum (length (without_cr line))
    then halts ∷ []
    else yields (without_cr line) (length line + 1) ∷ rest

-- The lines of the file, read byte by byte after the start of a line.
unfoldable pub framed : ℕ → List ℕ → List ℕ → List Step
unfolding ended_line
framed maximum line [] = last_line maximum line (length line)
framed maximum line (b ∷ bytes) =
    let rest = framed maximum [] bytes in
    let more = framed maximum (line ++ b ∷ []) bytes in
    if b == newline then ended_line maximum line rest else more

length-drop_last : (line : List ℕ) → length line ≤ length (drop_last line) + 1
unfolding drop_last
length-drop_last [] = omega arith
length-drop_last (b ∷ []) = omega arith
length-drop_last (b ∷ c ∷ line) = omega (arith, length-drop_last (c ∷ line))

length-without_cr : (line : List ℕ) → length line ≤ length (without_cr line) + 1
unfolding without_cr
length-without_cr line = ground (arith, length-drop_last line)

ended_line_long :
    (m : ℕ) (line : List ℕ) (rest : List Step)
    → m + 1 < length line
    → ended_line m line rest ≡ halts ∷ []
unfolding ended_line
ended_line_long m line rest h = ground (arith, length-without_cr line)

last_line_long :
    (m : ℕ) (line : List ℕ) (n : ℕ) → m + 1 < length line → last_line m line n ≡ halts ∷ []
unfolding last_line
last_line_long m [] n h = absurd (omega arith)
last_line_long m (b ∷ line) n h = ground arith

-- A line that is too long already stops the generator, wherever it ends.
framed_long : (m : ℕ) (line bytes : List ℕ) → m + 1 < length line → framed m line bytes ≡ halts ∷ []
unfolding framed
framed_long m line [] h = last_line_long m line _ h
framed_long m line (b ∷ bytes) h =
    let longer : m + 1 < length (line ++ b ∷ []) = omega (arith, length-append line (b ∷ [])) in
    ground (
      arith,
      ended_line_long m line (framed m [] bytes) h,
      framed_long m (line ++ b ∷ []) bytes longer,
    )

-- No newline.
abbrev IsPlain : List ℕ → Type 0
IsPlain [] = Unit
IsPlain (b ∷ s) = ((b == newline) ≡ false) × IsPlain s

abbrev IsCut : Segments → Type 0
IsCut (unended s) = IsPlain s
IsCut (ended s rest) = IsPlain s × IsCut rest

joined : Segments → List ℕ
joined (unended s) = s
joined (ended s rest) = s ++ newline ∷ joined rest

push-IsCut : (b : ℕ) (s : Segments) → (b == newline) ≡ false → IsCut s → IsCut (push b s)
unfolding push
push-IsCut b (unended s) e h = (e, h)
push-IsCut b (ended s rest) e (p, h) = ((e, p), h)

segments-cons :
    (b : ℕ) (block : List ℕ)
    → segments (b ∷ block)
      ≡ (if b == newline then ended [] (segments block) else push b (segments block))
unfolding segments push
segments-cons b block = refl

segments-IsCut : (block : List ℕ) → IsCut (segments block)
segments-IsCut [] = unfold segments in tt
segments-IsCut (b ∷ block) = elim (Bool-cases (b == newline)) [
  | inl e ↦ rw (segments-cons, e) (tt, segments-IsCut block)
  | inr e ↦ rw (segments-cons, e) (push-IsCut b (segments block) e (segments-IsCut block))
]

joined-push : (b : ℕ) (s : Segments) → joined (push b s) ≡ b ∷ joined s
unfolding joined push
joined-push b (unended s) = refl
joined-push b (ended s rest) = refl

joined-ended : (rest : Segments) → joined (ended [] rest) ≡ newline ∷ joined rest
unfolding joined
joined-ended rest = refl

joined-segments : (block : List ℕ) → joined (segments block) ≡ block
joined-segments [] = unfold joined segments in refl
joined-segments (b ∷ block) = elim (Bool-cases (b == newline)) [
  | inl e ↦
      rw (segments-cons, e, joined-ended, joined-segments block)
        (let same : b ≡ newline = ground arith in ap (λ t. t ∷ block) (sym same))
  | inr e ↦ rw (segments-cons, e, joined-push, joined-segments block)
]

framed-plain :
    (m : ℕ) (line s bytes : List ℕ)
    → IsPlain s
    → framed m line (s ++ bytes) ≡ framed m (line ++ s) bytes
unfolding framed
framed-plain m line [] bytes h = ap (λ t. framed m t bytes) (sym (append-nil line))
framed-plain m line (b ∷ s) bytes (e, h) = rw e (
    framed-plain m (line ++ b ∷ []) s bytes h
    ∙ ap (λ t. framed m t bytes) (append_assoc line (b ∷ []) s))

framed-newline :
    (m : ℕ) (line bytes : List ℕ)
    → framed m line (newline ∷ bytes) ≡ ended_line m line (framed m [] bytes)
unfolding framed
framed-newline m line bytes = refl

given_ended :
    (m n : ℕ) (line : List ℕ) (later : List Step)
    → n ≡ length line + 1
    → given (
        if ltb m (length (without_cr line)) then halts ∷ [] else yields (without_cr line) n ∷ later)
      ≡ ended_line m line (given later)
unfolding given ended_line
given_ended m n line later e = ground arith

-- A segment that ends in a newline completes its line.
framed-ended :
    (m : ℕ) (line s rest later : List ℕ)
    → IsPlain s
    → framed m line ((s ++ newline ∷ rest) ++ later)
      ≡ ended_line m (line ++ s) (framed m [] (rest ++ later))
framed-ended m line s rest later plain =
    ap (framed m line) (append_assoc s (newline ∷ rest) later)
    ∙ framed-plain m line s (newline ∷ (rest ++ later)) plain
    ∙ framed-newline m (line ++ s) (rest ++ later)

-- What a segment leads to, once it is known whether the line is too long.
given_short :
    (m n : ℕ) (line s : List ℕ) (steps : List Step) (bytes : List Step)
    → (m + 1 < length (line ++ s) → bytes ≡ halts ∷ [])
    → given steps ≡ bytes
    → given (if ltb (m + 1) (length line + length s) then notes n ∷ halts ∷ [] else steps) ≡ bytes
unfolding given
given_short m n line s steps bytes long short =
    elim (Bool-cases (ltb (m + 1) (length line + length s))) [
      | inl e ↦ rw e (sym (long (ground (arith, length-append line s))))
      | inr e ↦ rw e short
    ]

given-notes : (n : ℕ) (steps : List Step) → given (notes n ∷ steps) ≡ given steps
unfolding given
given-notes n steps = refl

module _ (m : ℕ) (next : List ℕ → ℕ → List Step) (later : List ℕ) where
  -- The loop over a block gives what the block and the later bytes hold.
  given-over_segments :
      (line : List ℕ) (s : Segments)
      → ((longer : List ℕ) → given (next longer (length longer)) ≡ framed m longer later)
      → IsCut s
      → given (over_segments m next line (length line) s) ≡ framed m line (joined s ++ later)
  unfolding over_segments joined
  given-over_segments line (unended []) h cut = h line
  given-over_segments line (unended (b ∷ s)) h cut =
      let whole = framed-plain m line (b ∷ s) later cut in
      given_short m _ line (b ∷ s) _ _ (λ long. whole ∙ framed_long m (line ++ b ∷ s) later long)
        (given-notes _ _
          ∙ ap (λ n. given (next (line ++ b ∷ s) n)) (sym (length-append line (b ∷ s)))
          ∙ h (line ++ b ∷ s)
          ∙ sym whole)
  given-over_segments line (ended s rest) h (plain, cut) =
      let whole = framed-ended m line s (joined rest) later plain in
      given_short m _ line s _ _ (λ long. whole ∙ ended_line_long m (line ++ s) _ long)
        (given-notes _ _
          ∙ given_ended m _ (line ++ s) _ (omega (arith, length-append line s))
          ∙ ap (ended_line m (line ++ s)) (given-over_segments [] rest h cut)
          ∙ sym whole)

given-takes :
    (block : List ℕ) (unread : List (List ℕ)) (steps : List Step)
    → given (takes block unread ∷ steps) ≡ given steps
unfolding given
given-takes block unread steps = refl

given-last_line :
    (m : ℕ) (line : List ℕ)
    → given (takes [] [] ∷ last_line m line (length line)) ≡ framed m line []
unfolding given last_line framed
given-last_line m [] = refl
given-last_line m (b ∷ line) = ground arith

given-lines_from :
    (m : ℕ) (line : List ℕ) (blocks : List (List ℕ))
    → given (lines_from m line (length line) blocks) ≡ framed m line (bytes_of blocks)
unfolding lines_from bytes_of
given-lines_from m line [] = given-last_line m line
given-lines_from m line ([] ∷ blocks) = given-last_line m line
given-lines_from m line ((b ∷ block) ∷ blocks) =
    given-takes (b ∷ block) blocks _
    ∙ given-over_segments m (λ longer bytes. lines_from m longer bytes blocks) (bytes_of blocks)
        line (segments (b ∷ block)) (λ longer. given-lines_from m longer blocks)
        (segments-IsCut (b ∷ block))
    ∙ ap (λ t. framed m line (t ++ bytes_of blocks)) (joined-segments (b ∷ block))

-- However the file is cut into blocks, `_binary_lines` yields the lines of the whole file, cut at
-- each newline and without a carriage return before it, and stops at the first line that is
-- longer than the maximum.
pub binary_lines-framed :
    (maximum : ℕ) (blocks : List (List ℕ))
    → given (binary_lines maximum blocks) ≡ framed maximum [] (bytes_of blocks)
unfolding binary_lines
binary_lines-framed maximum blocks = given-lines_from maximum [] blocks
