-- ===== src/Coder/Outcome.antt =====
-- agents/coder.py: what `CoderAgent.run` returns, and what it leaves when it raises.
use mathodology.Prelude.{ℕ, ◌≤◌, ◌≡◌, true, List, [], ◌∷◌, ◌++◌, length, All}
use mathodology.Text.{Text}
use mathodology.Exec.{Result, ok, err, Exec}
use mathodology.Float.{Float}
use mathodology.Contracts.Artifacts.{CellExecution, CoderOutput}
use mathodology.Coder.{
  Role, CoderDirective, Message, Tools, CoderState, member, ids, said, render_feedback,
}
use mathodology.Coder.Work.{Unique}

module _ {Num W : Type 0} ⦃fl : Float Num⦄ (tools : Tools Num W) where
  abbrev next : CoderDirective Num → List Message → CellExecution → List Message
  next d ms c =
      ms
      ++ said tools Role.assistant (tools.dump d)
        ∷ said tools Role.user (render_feedback tools.repr c)
        ∷ []

  -- What an output says of the state in which it is made.
  abbrev Reported : Result (CoderOutput Num) → CoderState Num W → Type 0
  Reported (err e) s = Unit
  Reported (ok o) s =
      (o.cells ≡ s.cells)
      × (o.figures ≡ s.figures)
      × All (λ f. member f.path_png o.figure_paths ≡ true) o.figures

  -- The end of a run: at most `max` cells, no figure id twice, what an output says is so, and the kernel's
  -- shutdown is the last that was done.
  abbrev pub CoderOutcome : ℕ → Result (CoderOutput Num) × CoderState Num W → Type 0
  CoderOutcome max p =
      (length p.1.cells ≤ max)
      × Unique (ids p.1.figures)
      × Reported p.0 p.1
      × ((w : W) × (p.1.world ≡ (tools.kernel_shutdown w).1))

  abbrev pub fresh : W → CoderState Num W
  fresh w = record { world = w; cells = []; figures = [] }
