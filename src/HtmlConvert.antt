-- ===== src/HtmlConvert.antt =====
-- src/lib/html_convert.c, and the program src/html.c around it. The list of `struct html_line` is a
-- list of strings, NULL the empty one (LinkedItems has the pointers). `html_last` is NULL or points
-- at the last line. `none` is a write past the end of `s[MAX_LINE_SIZE]`.
pub mod Blocks
pub mod Cells
pub mod Refines
mod Tests
use sntools.Base.{
  joined, ℕ, ◌<◌, Bool, true, false, ◌&&◌, not, Option, none, some, List, [], ◌∷◌, ◌++◌, ltb, ◌==◌,
  if◌then◌else◌, length, take, ℤ, pos, negsuc, Bytes, codes, contains,
}

abbrev pub max_line_size : ℕ
max_line_size = 1024

pub data Paragraph : Type 0 where
  undefined text table : Paragraph

pub record Html : Type 0 where
  pub html : List Bytes
  pub has_last : Bool
  pub paragraph : Paragraph

infixl 5 ◌>>=◌
abbrev pub ◌>>=◌ {ℓ κ} : {A : Type ℓ} {B : Type κ} → Option A → (A → Option B) → Option B
none >>= f = none
some a >>= f = f a

abbrev pub is_empty : List Bytes → Bool
is_empty [] = true
is_empty (_ ∷ _) = false

-- `__html_append`: without `html_last` a list that is left over is freed first.
abbrev pub fresh_lines : Html → List Bytes
fresh_lines h = if not h.has_last && not (is_empty h.html) then [] else h.html

-- `strcpy`, or `strncpy` of `max` bytes into memory that is cleared.
abbrev pub copied : Bytes → ℤ → Option Bytes
copied s (negsuc _) = if ltb (length s) max_line_size then some s else none
copied s (pos max) = if ltb max max_line_size then some (take max s) else none

unfoldable pub append : Html → Bytes → ℤ → Option Html
append h s max = do
  line ← copied s max
  some (record h { html = fresh_lines h ++ line ∷ []; has_last = true })

-- -1
abbrev pub whole : ℤ
whole = negsuc 0

-- `__html_finish_block`
unfoldable pub finish_block : Paragraph → Html → Option Html
finish_block text h = append h (codes "</p>") whole
finish_block table h = append h (codes "</table>") whole
finish_block undefined h = some h

abbrev pub is_table : Paragraph → Bool
is_table table = true
is_table _ = false

abbrev pub is_text : Paragraph → Bool
is_text text = true
is_text _ = false

abbrev pub tab : ℕ
tab = 9

abbrev pub table_tag : Bytes
table_tag = codes "<table border=\"0\" cellpadding=\"0\" cellspacing=\"0\">"

-- The loop over a table line: `cell` is the text from `s` up to `p`.
unfoldable pub cells_loop : (cell rest : Bytes) → Html → Option Html
cells_loop cell [] h = if ltb 1 (length cell) then append h cell whole else some h
cells_loop cell (c ∷ rest) h =
    let more = cells_loop (cell ++ c ∷ []) rest h in
    if c == tab
    then (do
      h1 ← append h (cell ++ c ∷ rest) (pos (length cell))
      h2 ← append h1 (codes "</td><td>") whole
      cells_loop [] rest h2)
    else more

-- `html_append_text`
unfoldable pub append_text : Html → Bytes → Option Html
append_text h line =
    if contains tab line
    then (do
      h1 ←
          (if is_table h.paragraph
            then some h
            else (do h' ← finish_block h.paragraph h; append h' table_tag whole))
      h2 ← append (record h1 { paragraph = table }) (codes "<tr><td>") whole
      h3 ← cells_loop [] line h2
      append h3 (codes "</td></tr>") whole)
    else (do
      h1 ←
          (if is_text h.paragraph
            then some h
            else (do h' ← finish_block h.paragraph h; append h' (codes "<p>") whole))
      append (record h1 { paragraph = text }) line whole)

-- `html_finish`
unfoldable pub finish : Html → Option Html
finish h = do
  h' ← finish_block h.paragraph h
  some (record h' { has_last = false; paragraph = undefined })

-- A conversion as all callers make it: each line, then `html_finish`.
unfoldable pub convert : Html → List Bytes → Option Html
convert h [] = finish h
convert h (line ∷ lines) = do h' ← append_text h line; convert h' lines

abbrev pub page_head : Bytes
page_head =
    codes "<!DOCTYPE html>\n"
    ++ codes "<html><head><style>*{font-family: sans-serif;}td{padding:4px;"
    ++ codes "border-bottom:1px solid black}</style></head><body>\n"

-- `main` of html.c on the lines that `fgets` reads.
unfoldable pub html_main : List Bytes → Option Bytes
html_main lines = do
  h ← convert (record { html = []; has_last = false; paragraph = undefined }) lines
  some (page_head ++ joined h.html ++ codes "</body></html>")
