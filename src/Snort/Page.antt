-- ===== src/Snort/Page.antt =====
-- The page that a request to snort-scan-util gets.
use sntools.Base.{◌≡◌, refl, false, some, List, [], ◌∷◌, ◌++◌, joined, Bytes, codes, All}
use sntools.HtmlConvert.{Html, page_head, undefined, convert, finish, finish_block}
use sntools.HtmlConvert.Blocks.{blocks, document}
use sntools.HtmlConvert.Cells.{Fits}
use sntools.HtmlConvert.Refines.{convert-document}
use sntools.Snort.Output.{handle_request}

handle_request-converted :
    (out : List Bytes) (h : Html)
    → convert (record { html = []; has_last = false; paragraph = undefined }) out ≡ some h
    → handle_request out ≡ some (page_head ++ joined h.html ++ codes "</body></html>\n")
unfolding handle_request
handle_request-converted out h e = rw (e, handle_request) refl

-- What a client gets.
abbrev pub page : List Bytes → Bytes
page out = page_head ++ joined (document (blocks out)) ++ codes "</body></html>\n"

-- A request gets the page of the last report.
pub handle_request-page : (out : List Bytes) → All Fits out → handle_request out ≡ some (page out)
unfolding convert finish finish_block document blocks
handle_request-page [] h =
    handle_request-converted [] (record { html = []; has_last = false; paragraph = undefined }) refl
handle_request-page (line ∷ out) h =
    handle_request-converted (line ∷ out) _ (convert-document [] line out h)
