-- ===== src/Editor/Reach/Invariants.antt =====
-- editor_tools/tools.py: what every tool keeps: the numbers of the cells stay below the next one.
use mathodology.Prelude.{
  ℕ, ◌+◌, ◌≤◌, ◌≡◌, refl, ap, sym, subst, Option, none, some, List, [], ◌∷◌, ◌++◌, arith, All,
}
use mathodology.Text.{Text}
use mathodology.Float.{Float}
use mathodology.Editor.Args.{Args, ℤ}
use mathodology.Editor.Meta.{Source, Cell, ToolContext}
use mathodology.Editor.Notebook.{Host}
use mathodology.Editor.Constant.{patch_lines, lines_of, found_here, found_later, patch_cells}
use mathodology.Editor.Registry.{Tool, execute}
use mathodology.Editor.Reach.{Step, Steps}
use mathodology.Editor.Reach.Tools.{execute-Reaches}

abbrev pub counts : List Cell → List ℕ
counts [] = []
counts (Cell.plain ∷ cells) = counts cells
counts (Cell.code n source ∷ cells) = n ∷ counts cells

-- No execution count is above the next index, at `bound` or later.
pub record Numbered {W : Type 0} (bound : ℕ) (c : ToolContext W) : Type 0 where
  pub below : All (λ n. n ≤ c.next_cell_index) (counts c.cells)
  pub at_least : bound ≤ c.next_cell_index

counts-append :
    (xs : List Cell) (n : ℕ) (source : Source)
    → counts (xs ++ Cell.code n source ∷ []) ≡ counts xs ++ n ∷ []
counts-append [] n source = refl
counts-append (Cell.plain ∷ xs) n source = counts-append xs n source
counts-append (Cell.code m s ∷ xs) n source = ap (λ r. m ∷ r) (counts-append xs n source)

grown : (k : ℕ) (ns : List ℕ) → All (λ n. n ≤ k) ns → All (λ n. n ≤ k + 1) (ns ++ (k + 1) ∷ [])
grown k [] h = (omega arith, tt)
grown k (n ∷ ns) h = (omega (arith, h.0), grown k ns h.1)

-- A patch keeps the numbers of the cells.
abbrev SameCounts : List Cell → Option (ℕ × Text × List Cell) → Type 0
SameCounts cells none = Unit
SameCounts cells (some (i, line, patched)) = counts patched ≡ counts cells

later-plain :
    (cells : List Cell) (o : Option (ℕ × Text × List Cell))
    → SameCounts cells o
    → SameCounts (Cell.plain ∷ cells) (found_later Cell.plain o)
later-plain cells none h = tt
later-plain cells (some (i, line, patched)) h = h

later-code :
    (n : ℕ) (s : Source) (cells : List Cell) (o : Option (ℕ × Text × List Cell))
    → SameCounts cells o
    → SameCounts (Cell.code n s ∷ cells) (found_later (Cell.code n s) o)
later-code n s cells none h = tt
later-code n s cells (some (i, line, patched)) h = ap (λ r. n ∷ r) h

module _ (name value : Text) where
  here-code :
      (n : ℕ) (s : Source) (cells : List Cell) (p : Option (Text × List Text))
      (o : Option (ℕ × Text × List Cell))
      → SameCounts cells o
      → SameCounts (Cell.code n s ∷ cells) (found_here (Cell.code n s) n p cells o)
  here-code n s cells none o h = later-code n s cells o h
  here-code n s cells (some (line, lines)) o h = refl

  patch_cells-SameCounts : (cells : List Cell) → SameCounts cells (patch_cells name value cells)
  patch_cells-SameCounts [] = tt
  patch_cells-SameCounts (Cell.plain ∷ cells) = later-plain cells _ (patch_cells-SameCounts cells)
  patch_cells-SameCounts (Cell.code n s ∷ cells) =
      here-code n s cells (patch_lines name value (lines_of s)) _ (patch_cells-SameCounts cells)

module _ {W : Type 0} where
  Step-Numbered : {c d : ToolContext W} (k : ℕ) → Step c d → Numbered k c → Numbered k d
  Step-Numbered k (Step.wrote c m) h = record { below = h.below; at_least = h.at_least }
  Step-Numbered k (Step.moved c w) h = record { below = h.below; at_least = h.at_least }
  Step-Numbered k (Step.appended c s) h = record {
    below =
        rw (counts-append c.cells (c.next_cell_index + 1) (Source.whole s))
          (grown c.next_cell_index (counts c.cells) h.below);
    at_least = omega (arith, h.at_least);
  }
  Step-Numbered k (Step.patched c name value line i cells p) h = record {
    below =
        subst (λ ns. All (λ n. n ≤ c.next_cell_index) ns)
          (sym (subst (SameCounts c.cells) p (patch_cells-SameCounts name value c.cells))) h.below;
    at_least = h.at_least;
  }

  pub Steps-Numbered : {c d : ToolContext W} (k : ℕ) → Steps c d → Numbered k c → Numbered k d
  Steps-Numbered k (Steps.stay _) h = h
  Steps-Numbered k (Steps.go _ _ _ s rest) h = Steps-Numbered k rest (Step-Numbered k s h)

module _ {Num W : Type 0} ⦃fl : Float Num⦄ (host : Host Num W) (repr : Text → Text)
    (parse : Text → Option ℤ) where
  -- Every tool, whatever its arguments, whatever the disk, the kernel and the gateway do, and whether
  -- it returns or raises: if no execution count of a cell was above the next index, none is after it,
  -- and the next index has not gone down.
  pub execute-Numbered :
      (tool : Tool) (args : Args) (c : ToolContext W)
      → Numbered c.next_cell_index c
      → Numbered c.next_cell_index (execute host repr parse tool args c).1
  execute-Numbered tool args c =
      Steps-Numbered c.next_cell_index ((execute-Reaches host repr parse tool args).reached c)
