-- ===== src/Install/Regex.antt =====
-- `re.sub` with count=1 for the patterns of the installers: a backtracking matcher in the order of
-- Python's. A pattern is a list of pieces, each in a group: 0 stands for none.
use peek.Prelude.{
  ℕ, List, [], ◌∷◌, ◌++◌, Bool, true, false, not, ◌&&◌, ◌||◌, ◌==◌, if◌then◌else◌, Option, none,
  some, leb,
}
use peek.Offline.Decimal.{is_space}
use peek.Offline.Tags.{starts_with}
use peek.Install.Text.{Text, after}

pub data Piece : Type 0 where
  literal : Text → Piece
  one : (ℕ → Bool) → Piece
  -- `*` and `*?`
  many : (ℕ → Bool) → Piece
  lazy : (ℕ → Bool) → Piece
  -- `(?:..|..)` and `(?=..|..)` of literals
  choice : List Text → Piece
  ahead : List Text → Piece
  -- `\b` after a word
  word_end : Piece

-- `\s`, `.`, and `.` under re.DOTALL
abbrev pub space : ℕ → Bool
space c = is_space c

abbrev pub dot : ℕ → Bool
dot c = not (c == b'\n')

abbrev pub dot_all : ℕ → Bool
dot_all c = true

abbrev pub is_word : ℕ → Bool
is_word c =
    (leb b'a' c && leb c b'z')
    || (leb b'A' c && leb c b'Z')
    || (leb b'0' c && leb c b'9')
    || (c == b'_')

abbrev pub ends_word : Text → Bool
ends_word [] = true
ends_word (c ∷ s) = not (is_word c)

abbrev pub Pattern : Type 0
Pattern = List (ℕ × Piece)

-- What each piece matched, with its group.
abbrev pub Parts : Type 0
Parts = List (ℕ × Text)

abbrev pub Found : Type 0
Found = Option (Parts × Text)

abbrev pub in_part : ℕ → Text → Found → Found
in_part g t none = none
in_part g t (some (parts, rest)) = some ((g, t) ∷ parts, rest)

abbrev pub or_else : Found → Found → Found
or_else none later = later
or_else (some r) later = some r

-- One more character in the first part, which is always there.
abbrev pub longer : ℕ → Found → Found
longer c none = none
longer c (some ([], rest)) = none
longer c (some ((g, t) ∷ parts, rest)) = some ((g, c ∷ t) ∷ parts, rest)

-- As many characters as `next` lets, and as few.
unfoldable pub greedy : ℕ → (Text → Found) → (ℕ → Bool) → Text → Found
greedy g next p [] = in_part g [] (next [])
greedy g next p (c ∷ s) =
    let here = in_part g [] (next (c ∷ s)) in
    let more = longer c (greedy g next p s) in if p c then or_else more here else here

unfoldable pub reluctant : ℕ → (Text → Found) → (ℕ → Bool) → Text → Found
reluctant g next p [] = in_part g [] (next [])
reluctant g next p (c ∷ s) =
    let here = in_part g [] (next (c ∷ s)) in
    let more = longer c (reluctant g next p s) in if p c then or_else here more else here

-- A literal, with what follows it.
abbrev pub in_literal : ℕ → Text → (Text → Found) → Option Text → Found
in_literal g t next none = none
in_literal g t next (some rest) = in_part g t (next rest)

abbrev pub first_of : ℕ → (Text → Found) → List Text → Text → Found
first_of g next [] s = none
first_of g next (t ∷ ts) s = or_else (in_literal g t next (after t s)) (first_of g next ts s)

abbrev pub single : ℕ → (Text → Found) → (ℕ → Bool) → Text → Found
single g next p [] = none
single g next p (c ∷ s) = if p c then in_part g (c ∷ []) (next s) else none

abbrev pub starts_any : List Text → Text → Bool
starts_any [] s = false
starts_any (t ∷ ts) s = starts_with t s || starts_any ts s

unfoldable pub match_at : Pattern → Text → Found
unfolding greedy reluctant starts_with after
match_at [] s = some ([], s)
match_at ((g, literal t) ∷ ps) s = in_literal g t (match_at ps) (after t s)
match_at ((g, one p) ∷ ps) s = single g (match_at ps) p s
match_at ((g, many p) ∷ ps) s = greedy g (match_at ps) p s
match_at ((g, lazy p) ∷ ps) s = reluctant g (match_at ps) p s
match_at ((g, choice ts) ∷ ps) s = first_of g (match_at ps) ts s
match_at ((g, ahead ts) ∷ ps) s = if starts_any ts s then match_at ps s else none
match_at ((g, word_end) ∷ ps) s = if ends_word s then match_at ps s else none

-- `m.group(k)`
abbrev pub group : ℕ → Parts → Text
group k [] = []
group k ((g, t) ∷ parts) = if g == k then t ++ group k parts else group k parts

abbrev pub with_match : (Parts → Text) → Found → Text → Text
with_match new none unchanged = unchanged
with_match new (some (parts, rest)) unchanged = new parts ++ rest

-- `re.sub(pattern, new, s, count=1)`: the leftmost match.
unfoldable pub sub_once : Pattern → (Parts → Text) → Text → Text
unfolding match_at
sub_once pattern new [] = with_match new (match_at pattern []) []
sub_once pattern new (c ∷ s) =
    let below = sub_once pattern new s in with_match new (match_at pattern (c ∷ s)) (c ∷ below)

-- `re.sub(r"(t)", r"\1" + new, text, count=1)`, and the other way round.
unfoldable pub insert_after : Text → Text → Text → Text
unfolding sub_once
insert_after t new = sub_once ((1, literal t) ∷ []) (λ ps. group 1 ps ++ new)

unfoldable pub insert_before : Text → Text → Text → Text
unfolding sub_once
insert_before t new = sub_once ((1, literal t) ∷ []) (λ ps. new ++ group 1 ps)
