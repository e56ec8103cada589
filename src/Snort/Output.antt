-- ===== src/Snort/Output.antt =====
-- The printed table: `create_out`, `print_data` and `handle_request` of src/snort-scan-util.c.
-- `asctime(localtime(&t))` is the C library's, and so a parameter. `none` is a write past `out->s`.
use sntools.Base.{
  joined, ℕ, suc, ◌-◌, false, Option, none, some, List, [], ◌∷◌, ◌++◌, ◌^◌, if◌then◌else◌, length,
  ltb, ◌==◌, ℤ, pos, ltb_ℤ, Bytes, codes, decimal, decimal_ℤ,
}
use sntools.HtmlConvert.{undefined, convert, page_head}
use sntools.Snort.{EventData, sum_hits, two_32}
use sntools.Snort.Alert.{Config}

abbrev pub out_size : ℕ
out_size = 512

-- `append_out`: the line if it fits, and the lines behind it.
abbrev pub append_out : Bytes → Option (List Bytes) → Option (List Bytes)
append_out s more =
    if ltb (length s) out_size
    then elim more [ none ↦ none | some lines ↦ some (s ∷ lines) ]
    else none

-- `%i` of an `unsigned int`
abbrev pub as_int : ℕ → Bytes
as_int n = if ltb n (2 ^ 31) then decimal n else b'-' ∷ decimal (two_32 - n)

-- The three lines of an item.
abbrev pub item_lines : EventData → List Bytes
item_lines d =
    (d.host_src ++ codes "\t" ++ d.host_dst ++ codes "\t(" ++ d.latest_proto ++ codes ")\n")
    ∷ (codes "\tHits: " ++ as_int (sum_hits d) ++ codes "\n")
    ∷ (codes "\t" ++ d.latest_message ++ codes "\n")
    ∷ []

abbrev pub append_all : List Bytes → Option (List Bytes) → Option (List Bytes)
append_all [] more = more
append_all (l ∷ ls) more = append_out l (append_all ls more)

-- The loop of `create_out`; `rest` are the lines behind it.
unfoldable pub rows :
    Config → (num : ℕ) → List EventData → (rest : List Bytes) → Option (List Bytes)
rows c num [] rest = append_all rest (some [])
rows c num (d ∷ ds) rest =
    let more = rows c (suc num) ds rest in
    if ltb_ℤ (pos num) c.print_max_items
    then append_all (item_lines d) more
    else append_all rest (some [])

abbrev pub count_line : ℕ → Bytes
count_line n = codes "Count: " ++ decimal n ++ codes "\n"

abbrev pub titles : Bytes
titles = codes "SRC HOST\tDST HOST\tPROTO\n"

module _ (time_text : ℤ → Bytes) where
  abbrev pub head_line : Config → ℤ → Bytes
  head_line c now =
      codes "Snort scan: timespan="
      ++ decimal_ℤ c.timespan_seconds
      ++ codes " sec, current time="
      ++ time_text now
      ++ codes "\n"

  -- `create_out`: the lines of `out`.
  unfoldable pub create_out : Config → (now : ℤ) → List EventData → Option (List Bytes)
  create_out c now items = append_out (head_line c now) (
      append_out (codes "\n")
        (append_out titles (rows c 0 items (codes "\n" ∷ count_line (length items) ∷ []))))

-- What `print_data` prints of `out`, after the sequence that clears the screen.
unfoldable pub print_data : Config → List EventData → (out : List Bytes) → Bytes
print_data c items out =
    (if c.verbosity == 0 then 27 ∷ codes "[1;1H" ++ 27 ∷ codes "[2J" else [])
    ++ elim items [ [] ↦ codes "No data available yet...\n" | _ ∷ _ ↦ joined out ]

-- What `handle_request` sends behind the response's head.
unfoldable pub handle_request : (out : List Bytes) → Option Bytes
handle_request out =
    elim (convert (record { html = []; has_last = false; paragraph = undefined }) out) [
      | none ↦ none
      | some h ↦ some (page_head ++ joined h.html ++ codes "</body></html>\n")
    ]
