-- ===== src/Editor/Reach.antt =====
-- editor_tools/tools.py: how a tool may change its context, as steps.
pub mod Tools
pub mod Invariants
use mathodology.Prelude.{ℕ, ◌+◌, ◌≡◌, refl, Bool, Option, none, some, List, [], ◌∷◌, ◌++◌}
use mathodology.Text.{Text}
use mathodology.Exec.{Result, Exec, pure, raise, continue, ◌>>=◌, recover, try_except, Error}
use mathodology.Editor.Meta.{Meta, Source, Cell, ToolContext, outside, call}
use mathodology.Editor.Notebook.{with_cell}
use mathodology.Editor.Constant.{patch_cells}

module _ {W : Type 0} where
  -- One change: the paper, the world outside with the directory in it, a cell more, a patched cell.
  pub data Step : ToolContext W → ToolContext W → Type 0 where
    wrote : (c : ToolContext W) (m : Meta) → Step c (record c { paper_meta = m })
    moved : (c : ToolContext W) (w : W) → Step c (record c { world = w })
    appended : (c : ToolContext W) (source : Text) → Step c (with_cell source c)
    patched :
        (c : ToolContext W) (name value line : Text) (i : ℕ) (cells : List Cell)
        → patch_cells name value c.cells ≡ some (i, line, cells)
        → Step c (record c { cells = cells })

  -- Any number of changes.
  pub data Steps : ToolContext W → ToolContext W → Type 0 where
    stay : (c : ToolContext W) → Steps c c
    go : (b c d : ToolContext W) → Step b c → Steps c d → Steps b d

  pub one : (c d : ToolContext W) → Step c d → Steps c d
  one c d s = go c d d s (stay d)

  pub join-Steps : (b c d : ToolContext W) → Steps b c → Steps c d → Steps b d
  join-Steps b c d (stay _) t = t
  join-Steps b c d (go _ x _ s rest) t = go b x d s (join-Steps x c d rest t)

  -- A run, whatever its result, is a number of changes.
  pub record Reaches {A : Type 0} (m : Exec (ToolContext W) A) : Type 0 where
    pub reached : (c : ToolContext W) → Steps c (m c).1

module _ {W A : Type 0} where
  pub pure-Reaches : (a : A) → Reaches {W = W} (pure a)
  pure-Reaches a = record { reached = stay }

  pub raise-Reaches : (e : Error) → Reaches {W = W} {A = A} (raise e)
  raise-Reaches e = record { reached = stay }

  outside-Steps : (c : ToolContext W) (r : Result A × W) → Steps c (outside r c).1
  outside-Steps c (r, w) = one c _ (moved c w)

  pub call-Reaches : (m : Exec W A) → Reaches (call m)
  call-Reaches m = record { reached = λ c. outside-Steps c (m c.world) }

module _ {W A B : Type 0} where
  continue-Steps :
      (f : A → Exec (ToolContext W) B)
      → ((a : A) → Reaches (f a))
      → (c : ToolContext W) (r : Result A × ToolContext W) → Steps c r.1
      → Steps c (continue f r.0 r.1).1
  continue-Steps f h c (Result.ok a, d) s = join-Steps c d _ s ((h a).reached d)
  continue-Steps f h c (Result.err e, d) s = s

  pub bind-Reaches :
      (m : Exec (ToolContext W) A) (f : A → Exec (ToolContext W) B)
      → Reaches m
      → ((a : A) → Reaches (f a))
      → Reaches (m >>= f)
  bind-Reaches m f h k = record { reached = λ c. continue-Steps f k c (m c) (h.reached c) }

module _ {W A : Type 0} where
  recover-Steps :
      (f : Error → Exec (ToolContext W) A)
      → ((e : Error) → Reaches (f e))
      → (c : ToolContext W) (r : Result A × ToolContext W) → Steps c r.1
      → Steps c (recover f r.0 r.1).1
  recover-Steps f h c (Result.ok a, d) s = s
  recover-Steps f h c (Result.err e, d) s = join-Steps c d _ s ((h e).reached d)

  pub try_except-Reaches :
      (m : Exec (ToolContext W) A) (f : Error → Exec (ToolContext W) A)
      → Reaches m
      → ((e : Error) → Reaches (f e))
      → Reaches (try_except m f)
  try_except-Reaches m f h k = record { reached = λ c. recover-Steps f k c (m c) (h.reached c) }
