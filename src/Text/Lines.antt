-- ===== src/Text/Lines.antt =====
-- The lines of a text: `s.splitlines()`.
use Prim.Native.Char.{Char, code}
use alvis.Base.{Bool, true, false, ◌&&◌, ◌||◌, List, [], ◌∷◌, ◌++◌}
use alvis.Base.{leb, eqb}
use alvis.Text.{Text, is_char, flush}

-- The characters that end a line.
unfoldable pub is_break : Char → Bool
is_break c =
    let n = code c in
    (leb 10 n && leb n 13) || (leb 28 n && leb n 30) || eqb n 133 || eqb n 8232 || eqb n 8233

-- The lines after a part of a line; a line feed after a carriage return ends the same line.
unfoldable pub lines_after : Bool → Text → Text → List Text
unfolding is_break is_char
lines_after returned line [] = flush line []
lines_after returned line (c ∷ s) = elim (returned && is_char 10 c) [
  | true ↦ lines_after false line s
  | false ↦ elim (is_break c) [
    | true ↦ line ∷ lines_after (is_char 13 c) [] s
    | false ↦ lines_after false (line ++ c ∷ []) s
  ]
]

unfoldable pub splitlines : Text → List Text
unfolding lines_after
splitlines s = lines_after false [] s
