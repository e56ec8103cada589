-- ===== src/HtmlConvert/Cells.antt =====
-- The cells of a table line.
use sntools.Base.{
  take-append, ℕ, suc, ◌+◌, ◌<◌, ◌≡◌, ap, ◌∙◌, sym, true, false, some, List, [], ◌∷◌, ◌++◌,
  append_assoc, append-nil, arith, ltb, ◌==◌, inl, inr, Bool-cases, length, length-append, pos,
  Bytes, codes,
}
use sntools.HtmlConvert.{Paragraph, Html, append, whole, tab, cells_loop, max_line_size}
use sntools.HtmlConvert.Blocks.{cells}

abbrev pub Fits : Bytes → Type 0
Fits line = length line < max_line_size

-- In the middle of a conversion.
abbrev pub open_state : List Bytes → Paragraph → Html
open_state ls p = record { html = ls; has_last = true; paragraph = p }

module _ (ls : List Bytes) (p : Paragraph) where
  pub append-whole :
      (s : Bytes) → Fits s → append (open_state ls p) s whole ≡ some (open_state (ls ++ s ∷ []) p)
  unfolding append
  append-whole s h = let e : ltb (length s) max_line_size ≡ true = ground arith in rw e

  append-part :
      (s t : Bytes)
      → Fits s
      → append (open_state ls p) (s ++ t) (pos (length s)) ≡ some (open_state (ls ++ s ∷ []) p)
  unfolding append
  append-part s t h =
      let e : ltb (length s) max_line_size ≡ true = ground arith in rw (e, take-append s t)

length-concat : (cell rest : Bytes) (c : ℕ) → length (cell ++ c ∷ []) ≡ suc (length cell)
length-concat cell rest c = omega (arith, length-append cell (c ∷ []))

pub cells_loop-cells :
    (cell rest : Bytes) (ls : List Bytes) (p : Paragraph)
    → length cell + length rest < max_line_size
    → cells_loop cell rest (open_state ls p) ≡ some (open_state (ls ++ cells cell rest) p)
unfolding cells_loop cells
cells_loop-cells cell [] ls p h = elim (Bool-cases (ltb 1 (length cell))) [
  | inl e ↦ rw e (append-whole ls p cell (omega arith))
  | inr e ↦ rw (e, append-nil ls)
]
cells_loop-cells cell (c ∷ rest) ls p h = elim (Bool-cases (c == tab)) [
  | inl e ↦
      rw (e, append-part ls p cell (c ∷ rest) (omega arith))
        (rw (append-whole (ls ++ cell ∷ []) p (codes "</td><td>") (omega arith)) (
          cells_loop-cells [] rest ((ls ++ cell ∷ []) ++ codes "</td><td>" ∷ []) p (omega arith)
          ∙ ap (λ x. some (open_state x p))
              (append_assoc (ls ++ cell ∷ []) (codes "</td><td>" ∷ []) (cells [] rest)
                ∙ append_assoc ls (cell ∷ []) (codes "</td><td>" ∷ cells [] rest))))
  | inr e ↦
      rw e (cells_loop-cells (cell ++ c ∷ []) rest ls p (omega (arith, length-concat cell rest c)))
]

cells-drop :
    (cell pre : Bytes) (c : ℕ)
    → (c == tab) ≡ false
    → cells cell (pre ++ tab ∷ c ∷ []) ≡ cells cell (pre ++ tab ∷ [])
unfolding cells
cells-drop cell [] c h = rw h
cells-drop cell (d ∷ pre) c h =
    ground (arith, cells-drop (cell ++ d ∷ []) pre c h, cells-drop [] pre c h)

-- A last cell of one byte, with no line end behind it, is lost: the loop over the line leaves the
-- same as for the line without it, in the middle of any conversion.
cells_loop-last_cell :
    (ls : List Bytes) (p : Paragraph) (pre : Bytes) (c : ℕ)
    → (c == tab) ≡ false
    → length pre + 2 < max_line_size
    → cells_loop [] (pre ++ tab ∷ c ∷ []) (open_state ls p)
      ≡ cells_loop [] (pre ++ tab ∷ []) (open_state ls p)
cells_loop-last_cell ls p pre c e h =
    cells_loop-cells [] (pre ++ tab ∷ c ∷ []) ls p (omega (arith, length-append pre (tab ∷ c ∷ [])))
    ∙ rw (cells-drop [] pre c e) (
        sym (
          cells_loop-cells [] (pre ++ tab ∷ []) ls p (omega (arith, length-append pre (tab ∷ [])))))
