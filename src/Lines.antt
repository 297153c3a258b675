-- ===== src/Lines.antt =====
-- src/text.rs: the lines of a file, each shorter than a bound.
use swarm_device_access.Base.{
  ℕ, zero, suc, List, [], ◌∷◌, length, reverse, ltb, ◌==◌, if◌then◌else◌, Result, ok, err, ◌>>=◌,
}

abbrev pub max_line : ℕ
max_line = 65536

pub data LineTooLong : Type 0 where
  line_too_long : LineTooLong

-- The bytes before the first newline, and those after it, if there is one.
unfoldable pub line_of : List ℕ → List ℕ
line_of [] = []
line_of (b ∷ rest) = let line = line_of rest in if b == b'\n' then [] else b ∷ line

unfoldable pub after_line : List ℕ → List ℕ
after_line [] = []
after_line (b ∷ rest) = let after = after_line rest in if b == b'\n' then rest else after

-- `strip_suffix(b"\r")`, of the reversed line.
abbrev pub drop_return : List ℕ → List ℕ
drop_return [] = []
drop_return (b ∷ line) = if b == 13 then line else b ∷ line

abbrev pub strip_return : List ℕ → List ℕ
strip_return line = reverse (drop_return (reverse line))

-- The iterator, on fuel: its lines, the last of which may be one that is too long.
unfoldable pub lines_from : ℕ → List ℕ → List (Result LineTooLong (List ℕ))
unfolding line_of after_line
lines_from zero rest = []
lines_from (suc f) [] = []
lines_from (suc f) (b ∷ rest) =
    let next = lines_from f (after_line (b ∷ rest)) in
    let line = line_of (b ∷ rest) in
    if ltb (length line) max_line then ok (strip_return line) ∷ next else err line_too_long ∷ []

-- Every line takes a byte at least.
unfoldable pub lines : List ℕ → List (Result LineTooLong (List ℕ))
unfolding lines_from
lines bytes = lines_from (length bytes) bytes

-- `collect::<Result<Vec<_>, _>>()`.
unfoldable pub collect_lines :
    List (Result LineTooLong (List ℕ)) → Result LineTooLong (List (List ℕ))
collect_lines [] = ok []
collect_lines (item ∷ items) = do line ← item; others ← collect_lines items; ok (line ∷ others)
