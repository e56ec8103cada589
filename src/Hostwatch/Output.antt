-- ===== src/Hostwatch/Output.antt =====
-- The printed table: `readable_bytes`, `create_out`, `handle_request` and `configure` of
-- src/hostwatch.c. `asctime(localtime(&t))`, the conversion of an `unsigned long` to `double` and
-- `%.2f` of a quotient are the C library's, and so parameters. A `double` is a number divided by a
-- power of 1024, which is exact.
use sntools.Base.{
  joined, ℕ, zero, suc, ◌^◌, true, false, Option, none, some, List, [], ◌∷◌, ◌++◌, if◌then◌else◌,
  length, get_elem?, ltb, ℤ, pos, ◌-ℤ◌, ltb_ℤ, Bytes, codes, decimal, decimal_ℤ, atoi, Opts, ◌==◌,
}
use sntools.LinkedItems.{exceeds}
use sntools.LinkedItems.Bubble.{sort_list}
use sntools.Hostwatch.{HostData, compare, cleanup_host_data}
use sntools.Hostwatch.Packet.{Config}
use sntools.HtmlConvert.{undefined, convert, page_head}

-- One option of the command line; the messages are left out.
unfoldable pub set_option : Config → ℕ × Bytes → Config
set_option c (option, arg) =
    if option == b'i'
    then record c { interface = some arg }
    else if option == b'm'
    then record c { strip_port_above = atoi arg }
    else if option == b'n'
    then record c { print_max_items = atoi arg }
    else if option == b'x'
    then record c { ignore_direction = true }
    else if option == b'h'
    then record c { human_readable = true }
    else if option == b's'
    then record c { server_ip = some arg }
    else if option == b'p'
    then record c { server_port = atoi arg }
    else if option == b't'
    then record c { timespan_seconds = atoi arg }
    else if option == b'v'
    then record c { verbosity = suc c.verbosity }
    else c

unfoldable pub configure : Config → Opts → Config
configure c [] = c
configure c (o ∷ os) = configure (set_option c o) os

-- The values before `configure`.
abbrev pub defaults : Config
defaults = record {
  interface = none;
  verbosity = 0;
  print_max_items = pos 20;
  ignore_direction = false;
  strip_port_above = pos 1024;
  human_readable = false;
  timespan_seconds = pos 3600;
  server_ip = none;
  server_port = pos 8002;
}

abbrev pub units : List Bytes
units =
    codes "B"
    ∷ codes "kB"
    ∷ codes "MB"
    ∷ codes "GB"
    ∷ codes "TB"
    ∷ codes "PB"
    ∷ codes "EB"
    ∷ codes "ZB"
    ∷ codes "YB"
    ∷ []

-- `while (result > 1024)`, where `result` is n / 1024 ^ i; `none` is too little fuel, and in
-- `readable_bytes` also a read past `units`.
unfoldable pub unit_loop : (fuel n i : ℕ) → Option ℕ
unit_loop zero n i = none
unit_loop (suc fuel) n i =
    let more = unit_loop fuel n (suc i) in if ltb (1024 ^ suc i) n then more else some i

abbrev pub titles : Bytes
titles = codes "HOST A\tHOST B\tBYTES (Packet count)\n"

abbrev pub sorted_data : Config → (now : ℤ) → List HostData → List HostData
sorted_data c now items =
    sort_list (exceeds compare) (cleanup_host_data items (now -ℤ c.timespan_seconds))

-- The sequence that clears the screen.
abbrev pub clear_screen : Config → Bytes
clear_screen c = if c.verbosity == 0 then 27 ∷ codes "[1;1H" ++ 27 ∷ codes "[2J" else []

module _ (to_double : ℕ → ℕ) (two_digits : (n i : ℕ) → Bytes) where
  unfoldable pub readable_bytes : ℕ → Option Bytes
  readable_bytes bytes = elim (unit_loop 10 (to_double bytes) 0) [
    | none ↦ none
    | some i ↦ elim (get_elem? units i) [
      | none ↦ none
      | some u ↦ some (two_digits (to_double bytes) i ++ codes " " ++ u)
    ]
  ]

  abbrev pub bytes_text : Config → ℕ → Option Bytes
  bytes_text c n = if c.human_readable then readable_bytes n else some (decimal n)

  abbrev pub row_text : HostData → Bytes → Bytes
  row_text d bytes_s =
      d.host_a
      ++ codes "\t"
      ++ d.host_b
      ++ codes "\t"
      ++ bytes_s
      ++ codes " ("
      ++ decimal (length d.byte_count)
      ++ codes ")\n"

  -- The line of an item. `append_out` copies it into the 512 bytes of `out->s`; that size stands in no
  -- definition here, and Fits is about it.
  unfoldable pub row : Config → HostData → Option Bytes
  row c d = elim (bytes_text c d.byte_sum) [ none ↦ none | some b ↦ some (row_text d b) ]

  -- The loop of `create_out`, and the two lines behind it.
  unfoldable pub rows :
      Config → (num : ℕ) → List HostData → (rest : List Bytes) → Option (List Bytes)
  rows c num [] rest = some rest
  rows c num (d ∷ ds) rest =
      let more = rows c (suc num) ds rest in
      if ltb_ℤ (pos num) c.print_max_items
      then elim (row c d) [
        | none ↦ none
        | some line ↦ elim more [ none ↦ none | some lines ↦ some (line ∷ lines) ]
      ]
      else some rest

  module _ (time_text : ℤ → Bytes) where
    abbrev pub head_line : Config → ℤ → Bytes
    head_line c now =
        codes "Hostwatch: timespan="
        ++ decimal_ℤ c.timespan_seconds
        ++ codes " sec, current time="
        ++ time_text now
        ++ codes "\n"

    -- `create_out`: `data` afterwards, and the lines of `out`.
    unfoldable pub create_out :
        Config → (now : ℤ) → List HostData → List HostData × Option (List Bytes)
    create_out c now items =
        let data' = sorted_data c now items in
        let count_line = codes "Count: " ++ decimal (length data') ++ codes "\n" in
        (
          data',
          elim (rows c 0 data' (codes "\n" ∷ count_line ∷ [])) [
            | none ↦ none
            | some lines ↦ some (head_line c now ∷ codes "\n" ∷ titles ∷ lines)
          ],
        )

    unfoldable pub print_data : Config → (now : ℤ) → List HostData → List HostData × Option Bytes
    print_data c now [] = ([], some (clear_screen c ++ codes "No data available yet...\n"))
    print_data c now (d ∷ ds) =
        let r = create_out c now (d ∷ ds) in
        (r.0, elim r.1 [ none ↦ none | some lines ↦ some (clear_screen c ++ joined lines) ])

    -- What `handle_request` sends behind the response's head.
    unfoldable pub handle_request :
        Config → (now : ℤ) → List HostData → List HostData × Option Bytes
    handle_request c now items =
        let r = create_out c now items in
        (
          r.0,
          elim r.1 [
            | none ↦ none
            | some lines ↦
                elim (convert (record { html = []; has_last = false; paragraph = undefined })
                  lines) [
                    | none ↦ none
                    | some h ↦ some (page_head ++ joined h.html ++ codes "</body></html>\n")
                  ]
          ],
        )
