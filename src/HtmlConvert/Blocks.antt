-- ===== src/HtmlConvert/Blocks.antt =====
-- What a conversion should give: the lines in blocks of one kind, and each block in its tags.
use sntools.Base.{List, [], ◌∷◌, ◌++◌, ltb, ◌==◌, if◌then◌else◌, length, Bytes, codes, contains}
use sntools.HtmlConvert.{tab, table_tag}

pub data Block : Type 0 where
  paragraph : List Bytes → Block
  rows : List Bytes → Block

-- A line joins the block behind it if that is of its kind.
abbrev pub add_text : Bytes → List Block → List Block
add_text line (paragraph lines ∷ bs) = paragraph (line ∷ lines) ∷ bs
add_text line bs = paragraph (line ∷ []) ∷ bs

abbrev pub add_row : Bytes → List Block → List Block
add_row line (rows lines ∷ bs) = rows (line ∷ lines) ∷ bs
add_row line bs = rows (line ∷ []) ∷ bs

unfoldable pub blocks : List Bytes → List Block
blocks [] = []
blocks (line ∷ lines) =
    if contains tab line then add_row line (blocks lines) else add_text line (blocks lines)

-- The cells of a table line. What stands behind the last tab counts if it is longer than one byte,
-- so a lone line end is no cell.
unfoldable pub cells : (cell rest : Bytes) → List Bytes
cells cell [] = if ltb 1 (length cell) then cell ∷ [] else []
cells cell (c ∷ rest) =
    let more = cells (cell ++ c ∷ []) rest in
    let next = cells [] rest in if c == tab then cell ∷ codes "</td><td>" ∷ next else more

unfoldable pub row : Bytes → List Bytes
row line = codes "<tr><td>" ∷ (cells [] line ++ codes "</td></tr>" ∷ [])

unfoldable pub all_rows : List Bytes → List Bytes
all_rows [] = []
all_rows (line ∷ lines) = row line ++ all_rows lines

unfoldable pub render : Block → List Bytes
render (paragraph lines) = codes "<p>" ∷ (lines ++ codes "</p>" ∷ [])
render (rows lines) = table_tag ∷ (all_rows lines ++ codes "</table>" ∷ [])

unfoldable pub document : List Block → List Bytes
document [] = []
document (b ∷ bs) = render b ++ document bs
