-- ===== src/Coder/Steps.antt =====
-- agents/coder.py: that the steps of `CoderAgent.run` other than the append execute no cell.
use mathodology.Prelude.{
  ℕ, zero, suc, ◌+◌, ◌≤◌, ◌≡◌, inl, inr, Bool, false, Option, none, some, List, [], ◌∷◌, ◌++◌, ◌⊎◌,
  arith, length, length-append,
}
use mathodology.Text.{Text, text}
use mathodology.Exec.{Error, Result, Exec, pure, ◌>>=◌, ◌>>◌}
use mathodology.Float.{Float}
use mathodology.Contracts.Artifacts.{CellExecution}
use mathodology.Coder.{
  Role, FigureMeta, Language, python, matlab, CoderDirective, Message, Event, Tools, CoderState,
  member, ids, png_of, reach_out, send_event, ask_coder, retry_message, look_up, asks_skill,
  skill_log, skill_answer, said,
}
use mathodology.Coder.Loop.{
  execute_in, in_matlab, not_provisioned, append_cell, add_figure, register, register_all,
  recover_figure, recover_all,
}
use mathodology.Coder.Work.{
  Unique, snoc-Unique, ids-append, Works, pure-Works, raise-Works, quiet-Works, pick,
}

module _ {Num W : Type 0} ⦃fl : Float Num⦄ (tools : Tools Num W) where
  pub reach_out-Works : {A : Type 0} (m : Exec W A) → Works 0 (reach_out tools m)
  reach_out-Works m = record { works_cells = λ s. omega arith; works_ids = λ s u. u }

  parsed-Works :
      (k : ℕ) (ms : List Message)
      → ((e : Text) → Works 0 (ask_coder tools k e (ms ++ retry_message tools e ∷ [])))
      → (r : Text ⊎ CoderDirective Num)
      → Works 0 (elim r as (λ _. Exec (CoderState Num W) (CoderDirective Num)) [
        | inl e ↦ ask_coder tools k e (ms ++ retry_message tools e ∷ [])
        | inr d ↦ pure d
      ])
  parsed-Works k ms h (inl e) = h e
  parsed-Works k ms h (inr d) = pure-Works 0 d

  pub ask_coder-Works :
      (k : ℕ) (last : Text) (ms : List Message) → Works 0 (ask_coder tools k last ms)
  unfolding ask_coder
  ask_coder-Works zero last ms =
      quiet-Works _ _ (reach_out-Works (tools.send (Event.parse_failed last)))
        (λ _. raise-Works 0 (Error.agent_error (text "coder produced unparseable output")))
  ask_coder-Works (suc k) last ms =
      quiet-Works _ _ (reach_out-Works (tools.complete ms))
        (λ t. parsed-Works k ms (λ e. ask_coder-Works k e _) (tools.parse_directive t))

  abbrev looked_up : CoderDirective Num → List Message → Text → Text → List Message
  looked_up d ms name content =
      ms
      ++ said tools Role.assistant (tools.dump d)
        ∷ said tools Role.user (skill_answer tools name content)
        ∷ []

  asked-Works :
      (k : ℕ) (d : CoderDirective Num) (ms : List Message)
      → ((d' : CoderDirective Num) (ms' : List Message) → Works 0 (look_up tools k d' ms'))
      → (o : Option (Text × Bool × Text))
      → Works 0 (elim o as (λ _. Exec (CoderState Num W) (CoderDirective Num × List Message)) [
        | none ↦ pure (d, ms)
        | some (name, success, content) ↦
            send_event tools (skill_log tools name success content)
            >> (ask_coder tools 2 [] (looked_up d ms name content) >>= λ d'.
                look_up tools k d' (looked_up d ms name content))
      ])
  asked-Works k d ms h none = pure-Works 0 _
  asked-Works k d ms h (some (name, success, content)) =
      quiet-Works _ _ (reach_out-Works (tools.send (skill_log tools name success content))) (λ _.
        quiet-Works _ _ (ask_coder-Works 2 [] (looked_up d ms name content))
          (λ d'. h d' (looked_up d ms name content)))

  pub look_up-Works :
      (k : ℕ) (d : CoderDirective Num) (ms : List Message) → Works 0 (look_up tools k d ms)
  unfolding look_up
  look_up-Works zero d ms = pure-Works 0 _
  look_up-Works (suc k) d ms =
      asked-Works k d ms (look_up-Works k) (asks_skill tools tools.get_skill d.skill_request)

  in_matlab-Works :
      (o : Option (Text → ℕ → Exec W CellExecution)) (source : Text) (i : ℕ)
      → Works 0 (in_matlab tools o source i)
  in_matlab-Works none source i = pure-Works 0 (not_provisioned tools source i)
  in_matlab-Works (some execute) source i =
      quiet-Works _ _ (reach_out-Works (execute source i))
        (λ c. pure-Works 0 (record c { language = text "matlab" }))

  pub execute_in-Works :
      (l : Language) (source : Text) (i : ℕ) → Works 0 (execute_in tools l source i)
  execute_in-Works python source i =
      quiet-Works _ _ (reach_out-Works (tools.kernel_execute source i))
        (λ c. pure-Works 0 (record c { language = text "python" }))
  execute_in-Works matlab source i = in_matlab-Works tools.matlab_execute source i

  pub append_cell-Works : (c : CellExecution) → Works 1 (append_cell tools c)
  append_cell-Works c = record {
    works_cells = λ s. omega (arith, length-append s.cells (c ∷ []));
    works_ids = λ s u. u;
  }

  add_figure-Unique :
      (id caption : Text) (width : Num) (s : CoderState Num W)
      → member id (ids s.figures) ≡ false
      → Unique (ids s.figures)
      → Unique (ids (add_figure tools id caption width s).1.figures)
  add_figure-Unique id caption width s fresh u =
      rw (ids-append s.figures _) (snoc-Unique (ids s.figures) id fresh u)

  abbrev Step : {A : Type 0} → CoderState Num W → Result A × CoderState Num W → Type 0
  Step s r =
      (length r.1.cells ≤ length s.cells + 0) × (Unique (ids s.figures) → Unique (ids r.1.figures))

  add_figure-Step :
      (id caption : Text) (width : Num) (s : CoderState Num W)
      → member id (ids s.figures) ≡ false
      → Step s (add_figure tools id caption width s)
  add_figure-Step id caption width s fresh =
      (omega arith, add_figure-Unique id caption width s fresh)

  register-Step : (fm : FigureMeta Num) (s : CoderState Num W) → Step s (register tools fm s)
  register-Step fm s =
      pick (member fm.id (ids s.figures)) _ _ (Step s) (λ _. (omega arith, λ u. u))
        (λ fresh.
          pick (tools.is_file (png_of fm.id) s.world) _ _ (Step s)
            (λ _. add_figure-Step fm.id fm.caption fm.width s fresh) (λ _. (omega arith, λ u. u)))

  register-Works : (fm : FigureMeta Num) → Works 0 (register tools fm)
  register-Works fm = record {
    works_cells = λ s. (register-Step fm s).0;
    works_ids = λ s. (register-Step fm s).1;
  }

  pub register_all-Works : (fms : List (FigureMeta Num)) → Works 0 (register_all tools fms)
  unfolding register_all
  register_all-Works [] = pure-Works 0 tt
  register_all-Works (fm ∷ fms) = quiet-Works _ _ (register-Works fm) (λ _. register_all-Works fms)

  recover_figure-Step : (id : Text) (s : CoderState Num W) → Step s (recover_figure tools id s)
  recover_figure-Step id s =
      pick (member id (ids s.figures)) _ _ (Step s) (λ _. (omega arith, λ u. u))
        (λ fresh. (omega arith, (add_figure-Step id _ (fl.hundredths 80) s fresh).1))

  recover_figure-Works : (id : Text) → Works 0 (recover_figure tools id)
  recover_figure-Works id = record {
    works_cells = λ s. (recover_figure-Step id s).0;
    works_ids = λ s. (recover_figure-Step id s).1;
  }

  pub recover_all-Works : (is : List Text) → Works 0 (recover_all tools is)
  unfolding recover_all
  recover_all-Works [] = pure-Works 0 tt
  recover_all-Works (id ∷ is) =
      quiet-Works _ _ (recover_figure-Works id) (λ _. recover_all-Works is)
