-- ===== src/HtmlConvert/Tests.antt =====
-- The conversion on small inputs, and the theorems at them.
use sntools.Base.{
  joined, ◌≡◌, refl, false, some, List, [], ◌∷◌, ◌++◌, arith, Bytes, codes, contains,
}
use sntools.HtmlConvert.{
  undefined, append, finish_block, cells_loop, append_text, finish, convert, html_main, page_head,
}
use sntools.HtmlConvert.Blocks.{blocks, cells, row, all_rows, render, document}
use sntools.HtmlConvert.Refines.{convert-document, html_main-document}

abbrev lines : List Bytes
lines = codes "Hello\n" ∷ codes "A\tB\tC\n" ∷ codes "\t\t\n" ∷ codes "END\n" ∷ []

abbrev page : Bytes
page =
    codes "<p>Hello\n</p><table border=\"0\" cellpadding=\"0\" cellspacing=\"0\">"
    ++ codes "<tr><td>A</td><td>B</td><td>C\n</td></tr>"
    ++ codes "<tr><td></td><td></td><td></td></tr></table><p>END\n</p>"

html_main_runs : html_main lines ≡ some (page_head ++ page ++ codes "</body></html>")
unfolding html_main convert append_text append finish_block cells_loop finish contains
html_main_runs = refl

document_runs : joined (document (blocks lines)) ≡ page
unfolding document blocks render all_rows row cells contains
document_runs = refl

convert-document_example :
    convert (record { html = codes "old" ∷ []; has_last = false; paragraph = undefined }) lines
    ≡ some (record { html = document (blocks lines); has_last = false; paragraph = undefined })
convert-document_example = convert-document (codes "old" ∷ []) _ _ (omega arith)

html_main-document_example :
    html_main lines ≡ some (page_head ++ joined (document (blocks lines)) ++ codes "</body></html>")
html_main-document_example = html_main-document lines (omega arith)
