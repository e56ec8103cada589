-- ===== src/HtmlConvert/Refines.antt =====
-- A conversion gives the document of its blocks, whatever an earlier one has left behind.
use sntools.Base.{
  joined, ◌≡◌, refl, ap, ◌∙◌, true, false, some, List, [], ◌∷◌, ◌++◌, append_assoc, append-nil,
  arith, inl, inr, Bool-cases, Bytes, codes, contains, All,
}
use sntools.HtmlConvert.{
  Paragraph, undefined, text, table, Html, ◌>>=◌, append, whole, finish_block, tab, table_tag,
  cells_loop, append_text, finish, convert, html_main, page_head,
}
use sntools.HtmlConvert.Blocks.{
  Block, paragraph, rows, add_text, add_row, blocks, cells, row, all_rows, render, document,
}
use sntools.HtmlConvert.Cells.{Fits, open_state, append-whole, cells_loop-cells}

-- What ends the paragraph, and what stands in front of a line of either kind.
abbrev closing : Paragraph → List Bytes
closing undefined = []
closing text = codes "</p>" ∷ []
closing table = codes "</table>" ∷ []

abbrev text_opening : Paragraph → List Bytes
text_opening text = []
text_opening p = closing p ++ codes "<p>" ∷ []

abbrev table_opening : Paragraph → List Bytes
table_opening table = []
table_opening p = closing p ++ table_tag ∷ []

append_text_text :
    (ls : List Bytes) (p : Paragraph) (line : Bytes)
    → contains tab line ≡ false
    → Fits line
    → append_text (open_state ls p) line
      ≡ some (open_state (ls ++ (text_opening p ++ line ∷ [])) text)
unfolding append_text finish_block
append_text_text ls undefined line e h =
    rw (e, append-whole ls undefined (codes "<p>") (omega arith))
      (append-whole (ls ++ codes "<p>" ∷ []) text line h
        ∙ ap (λ x. some (open_state x text)) (append_assoc ls _ _))
append_text_text ls text line e h = rw e (append-whole ls text line h)
append_text_text ls table line e h =
    rw (e, append-whole ls table (codes "</table>") (omega arith))
      (rw (append-whole (ls ++ codes "</table>" ∷ []) table (codes "<p>") (omega arith)) (
        append-whole ((ls ++ codes "</table>" ∷ []) ++ codes "<p>" ∷ []) text line h
        ∙ ap (λ x. some (open_state x text)) (simp append_assoc)))

row_steps :
    (ls : List Bytes) (line : Bytes)
    → Fits line
    → (append (open_state ls table) (codes "<tr><td>") whole >>= λ h2.
        cells_loop [] line h2 >>= λ h3. append h3 (codes "</td></tr>") whole)
      ≡ some (open_state (ls ++ row line) table)
unfolding row
row_steps ls line h =
    rw
      (
        append-whole ls table (codes "<tr><td>") (omega arith),
        cells_loop-cells [] line (ls ++ codes "<tr><td>" ∷ []) table (omega arith),
      )
      (append-whole ((ls ++ codes "<tr><td>" ∷ []) ++ cells [] line) table (codes "</td></tr>")
          (omega arith)
        ∙ ap (λ x. some (open_state x table)) (simp append_assoc))

append_text_table :
    (ls : List Bytes) (p : Paragraph) (line : Bytes)
    → contains tab line ≡ true
    → Fits line
    → append_text (open_state ls p) line
      ≡ some (open_state (ls ++ (table_opening p ++ row line)) table)
unfolding append_text finish_block
append_text_table ls undefined line e h =
    rw (e, append-whole ls undefined table_tag (omega arith))
      (row_steps (ls ++ table_tag ∷ []) line h
        ∙ ap (λ x. some (open_state x table)) (simp append_assoc))
append_text_table ls table line e h = rw e (row_steps ls line h)
append_text_table ls text line e h =
    rw (e, append-whole ls text (codes "</p>") (omega arith))
      (rw (append-whole (ls ++ codes "</p>" ∷ []) text table_tag (omega arith)) (
        row_steps ((ls ++ codes "</p>" ∷ []) ++ table_tag ∷ []) line h
        ∙ ap (λ x. some (open_state x table)) (simp append_assoc)))

-- What the blocks to come add, in the middle of a paragraph.
abbrev continued : Paragraph → List Block → List Bytes
continued undefined bs = document bs
continued text (paragraph lines ∷ bs) = lines ++ codes "</p>" ∷ document bs
continued text bs = codes "</p>" ∷ document bs
continued table (rows lines ∷ bs) = all_rows lines ++ codes "</table>" ∷ document bs
continued table bs = codes "</table>" ∷ document bs

continued-add_text :
    (p : Paragraph) (line : Bytes) (bs : List Block)
    → (text_opening p ++ line ∷ []) ++ continued text bs ≡ continued p (add_text line bs)
unfolding document render all_rows
continued-add_text undefined line [] = refl
continued-add_text undefined line (paragraph l ∷ bs) = simp append_assoc
continued-add_text undefined line (rows l ∷ bs) = simp append_assoc
continued-add_text text line [] = refl
continued-add_text text line (paragraph l ∷ bs) = simp append_assoc
continued-add_text text line (rows l ∷ bs) = simp append_assoc
continued-add_text table line [] = refl
continued-add_text table line (paragraph l ∷ bs) = simp append_assoc
continued-add_text table line (rows l ∷ bs) = simp append_assoc

continued-add_row :
    (p : Paragraph) (line : Bytes) (bs : List Block)
    → (table_opening p ++ row line) ++ continued table bs ≡ continued p (add_row line bs)
unfolding document render all_rows
continued-add_row undefined line [] = simp (append_assoc, append-nil)
continued-add_row undefined line (paragraph l ∷ bs) = simp (append_assoc, append-nil)
continued-add_row undefined line (rows l ∷ bs) = simp (append_assoc, append-nil)
continued-add_row text line [] = simp (append_assoc, append-nil)
continued-add_row text line (paragraph l ∷ bs) = simp (append_assoc, append-nil)
continued-add_row text line (rows l ∷ bs) = simp (append_assoc, append-nil)
continued-add_row table line [] = simp (append_assoc, append-nil)
continued-add_row table line (paragraph l ∷ bs) = simp (append_assoc, append-nil)
continued-add_row table line (rows l ∷ bs) = simp (append_assoc, append-nil)

-- After `html_finish`.
abbrev finished : List Bytes → Html
finished ls = record { html = ls; has_last = false; paragraph = undefined }

finish-closing :
    (ls : List Bytes) (p : Paragraph) → finish (open_state ls p) ≡ some (finished (ls ++ closing p))
unfolding finish finish_block
finish-closing ls undefined = rw (append-nil ls)
finish-closing ls text = rw (append-whole ls text (codes "</p>") (omega arith))
finish-closing ls table = rw (append-whole ls table (codes "</table>") (omega arith))

closing-continued : (p : Paragraph) → closing p ≡ continued p []
unfolding document
closing-continued undefined = refl
closing-continued text = refl
closing-continued table = refl

convert-continued :
    (lines ls : List Bytes) (p : Paragraph)
    → All Fits lines
    → convert (open_state ls p) lines ≡ some (finished (ls ++ continued p (blocks lines)))
unfolding convert blocks
convert-continued [] ls p h =
    finish-closing ls p ∙ ap (λ x. some (finished (ls ++ x))) (closing-continued p)
convert-continued (line ∷ lines) ls p (fits, h) = elim (Bool-cases (contains tab line)) [
  | inl e ↦
      rw (append_text_table ls p line e fits, e)
        (convert-continued lines (ls ++ (table_opening p ++ row line)) table h
          ∙ ap (λ x. some (finished x))
              (append_assoc ls _ _ ∙ ap (λ x. ls ++ x) (continued-add_row p line (blocks lines))))
  | inr e ↦
      rw (append_text_text ls p line e fits, e)
        (convert-continued lines (ls ++ (text_opening p ++ line ∷ [])) text h
          ∙ ap (λ x. some (finished x))
              (append_assoc ls _ _ ∙ ap (λ x. ls ++ x) (continued-add_text p line (blocks lines))))
]

-- The first line of a conversion finds a list that is over and frees it.
append_text-finished :
    (old : List Bytes) (line : Bytes)
    → append_text (finished old) line ≡ append_text (open_state [] undefined) line
unfolding append_text finish_block append
append_text-finished [] line = refl
append_text-finished (l ∷ old) line = refl

-- A conversion of at least one line, each shorter than the line buffer, overflows nothing. It leaves
-- the tagged document of the blocks of these lines and nothing of an earlier conversion.
pub convert-document :
    (old : List Bytes) (line : Bytes) (lines : List Bytes)
    → All Fits (line ∷ lines)
    → convert (finished old) (line ∷ lines) ≡ some (finished (document (blocks (line ∷ lines))))
unfolding convert
convert-document old line lines h =
    rw (append_text-finished old line) (convert-continued (line ∷ lines) [] undefined h)

-- html.c prints one page: the head, the document of the lines read, none included, and the end.
pub html_main-document :
    (lines : List Bytes)
    → All Fits lines
    → html_main lines
      ≡ some (page_head ++ joined (document (blocks lines)) ++ codes "</body></html>")
unfolding html_main convert finish finish_block document blocks
html_main-document [] h = refl
html_main-document (line ∷ lines) h = rw (convert-document [] line lines h)
