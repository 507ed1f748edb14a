-- ===== src/Pipeline/Run/Terminal.antt =====
-- pipeline.py: how `run_pipeline` ends, and which agents it has run by then.
use mathodology.Prelude.{
  ℕ, suc, ◌≤◌, ◌≡◌, refl, ◌∙◌, ◌⊎◌, inl, inr, ap, false, Option, none, some, List, [], ◌∷◌, arith,
}
use mathodology.Exec.{
  Error, agent_error, agent_parse_error, run_cancelled, other, is_agent_error, Result, ok, err,
  Exec, ◌>>=◌, continue, recover,
}
use mathodology.Float.{Float}
use mathodology.Text.{Text, text}
use mathodology.Contracts.{Stage, analyzer, searcher, modeler, coder, writer}
use mathodology.Contracts.Artifacts.{ProblemInput, CoderOutput}
use mathodology.Events.{AgentName, EventKind, log, error, done, Payload}
use mathodology.CostTracker
use mathodology.Pipeline.State.{RunState, Services, Call, ran, ask, emit_event, get_reminder}
use mathodology.Pipeline.Quiet.{is_done, tally, emit-Quiet, poll-Quiet, gets-Quiet}
use mathodology.Pipeline.Review.Quiet.{review_and_maybe_revise-Quiet}
use mathodology.Pipeline.Rerun.Quiet.{rerun_coder-Quiet}
use mathodology.Pipeline.AuditGate.Quiet.{run_audit-Quiet}
use mathodology.Pipeline.Run.{
  Agents, Host, run_stage, announce, write_paper, code_spec, model_analysis, search_papers,
  analyze_problem, stages, finally_close, on_error, run_pipeline,
}
use mathodology.Pipeline.Run.Quiet.{log_scan-Quiet, publish-Quiet}
use mathodology.Pipeline.Run.Progress.{
  so_far, status_of, Reached, Stopped, Closed, Terminated, Finished, Concludes, Moves, Leads,
  arrives, Moves-Quiet, Moves-bind, Leads-bind,
}

-- No event raises an `AgentError`: Redis and the log file know none.
abbrev pub PlainErrors : {Num W : Type 0} → ⦃fl : Float Num⦄ → Services Num W → Type 0
PlainErrors {Num} {W} sv =
    (kind : EventKind) (payload : Payload) (agent : Option AgentName) (s : RunState Num W)
    (e : Error)
    → (emit_event sv kind payload agent s).0 ≡ err e
    → is_agent_error e ≡ false

module _ {Num W : Type 0} ⦃fl : Float Num⦄ (sv : Services Num W) where
  ask_ran-Moves :
      {B : Type 0} (n : ℕ) (t : Stage) (m : Exec W B)
      → suc n ≤ 5
      → t ∷ so_far n ≡ so_far (suc n)
      → Moves {Num = Num} n (suc n) (ask (ran t) m)
  ask_ran-Moves n t m few next = record {
    moves = λ s h.
        arrives (suc n) (m s.world).0 (record s { world = (m s.world).1; calls = ran t ∷ s.calls })
          few (ap (λ c. (t ∷ c.0, c.1)) h ∙ ap (λ x. (x, 0)) next);
  }

  run_stage-Moves :
      {B : Type 0} (n : ℕ) (t : Stage) (m : Text → Exec W B)
      → suc n ≤ 5
      → t ∷ so_far n ≡ so_far (suc n)
      → Moves n (suc n) (run_stage sv t m)
  unfolding run_stage
  run_stage-Moves n t m few next =
      Moves-bind n n (suc n) _ (Moves-Quiet n (omega (arith, few)) (poll-Quiet sv)) λ u.
        Moves-bind n n (suc n) _
          (Moves-Quiet n (omega (arith, few)) (gets-Quiet (λ s. get_reminder s.reminders t)))
          λ reminder. ask_ran-Moves n t (m reminder) few next

  module _ (plain : PlainErrors sv) where
    done_result :
        (status : Text) (n : ℕ) (payload : Payload) (s : RunState Num W) (r : Result (Unit {0}))
        (s' : RunState Num W)
        → ((e : Error) → r ≡ err e → is_agent_error e ≡ false)
        → Terminated s'.calls
        → Finished (r, s') × Concludes (r, s')
    done_result status n payload s (ok t) s' h k = (k, k)
    done_result status n payload s (err e) s' h k = ((h e refl, inr k), inr (h e refl, k))

    emit_done :
        (status : Text) (n : ℕ) (payload : Payload) (s : RunState Num W)
        → (Closed status n (emit_event sv done payload none s).1.calls
            → Terminated (emit_event sv done payload none s).1.calls)
        → status_of payload ≡ some status
        → Reached n s.calls
        → Finished (emit_event sv done payload none s)
          × Concludes (emit_event sv done payload none s)
    unfolding emit_event
    emit_done status n payload s into reported h =
        done_result status n payload s _ _ (plain done payload none s) (
          into (record {
            payload = payload;
            earlier = s.calls;
            newest = refl;
            reported = reported;
            reached = h;
          }))

    Finished-continue :
        (f : Unit {0} → Exec (RunState Num W) (Unit {0})) (r : Result (Unit {0}))
        (s : RunState Num W)
        → ((e : Error) → r ≡ err e → is_agent_error e ≡ false)
        → Stopped s.calls
        → Finished (f tt s)
        → Finished (continue f r s)
    Finished-continue f (ok t) s h k g = g
    Finished-continue f (err e) s h k g = (h e refl, inl k)

    -- An event and the last one, after a run that stopped.
    close_as :
        (kind : EventKind) (payload last : Payload) (status : Text) (s : RunState Num W)
        → ((n : ℕ) (cs : List (Call Num)) → n ≤ 5 → Closed status n cs → Terminated cs)
        → (kind ≡ log) ⊎ (kind ≡ error)
        → status_of last ≡ some status
        → Stopped s.calls
        → Finished ((emit_event sv kind payload none >>= λ t. emit_event sv done last none) s)
    close_as kind payload last status s into quiet reported (n, few, h) =
        let s' = (emit_event sv kind payload none s).1 in
        let reached : Reached n s'.calls =
          (emit-Quiet sv kind payload none (not_done quiet)).keeps s ∙ h in
        Finished-continue (λ t. emit_event sv done last none) (emit_event sv kind payload none s).0
          s' (plain kind payload none s) (n, few, reached)
          (emit_done status n last s' (into n _ few) reported reached).0
      where
        not_done : (kind ≡ log) ⊎ (kind ≡ error) → is_done kind ≡ false
        not_done (inl e) = rw e
        not_done (inr e) = rw e

    module _ (h : Host Num W) {Findings : Type 0} (ag : Agents Num W Findings) where
      on_error-Finished :
          (e : Error) (s : RunState Num W)
          → Stopped s.calls ⊎ ((is_agent_error e ≡ false) × Terminated s.calls)
          → Finished (on_error sv h ag e s)
      unfolding on_error
      on_error-Finished (run_cancelled m) s (inl stop) =
          close_as log _ _ (text "cancelled") s (λ n cs few c. inr (n, few, inl c)) (inl refl) refl
            stop
      on_error-Finished (agent_error m) s (inl stop) =
          close_as error _ _ (text "failed") s (λ n cs few c. inr (n, few, inr c)) (inr refl) refl
            stop
      on_error-Finished (agent_parse_error m) s (inl stop) =
          close_as error _ _ (text "failed") s (λ n cs few c. inr (n, few, inr c)) (inr refl) refl
            stop
      on_error-Finished (other c m) s (inl stop) = (refl, inl stop)
      on_error-Finished (other c m) s (inr (e, end)) = (refl, inr end)
      on_error-Finished (run_cancelled m) s (inr (e, end)) = cc
      on_error-Finished (agent_error m) s (inr (e, end)) = cc
      on_error-Finished (agent_parse_error m) s (inr (e, end)) = cc

      announce-Leads :
          (coder_out : CoderOutput Num) (pdf : Option Text) → Leads 5 (announce sv h coder_out pdf)
      unfolding announce
      announce-Leads coder_out pdf = record {
        leads = λ s r. (emit_done (text "success") 5 _ s (λ c. inl c) refl r).1;
      }

      stages-Leads : (problem : ProblemInput) → Leads 0 (stages sv h ag problem)
      unfolding stages analyze_problem search_papers model_analysis code_spec write_paper
      stages-Leads problem =
          Leads-bind 0 1 _
            (Moves-bind 0 1 1 _ (run_stage-Moves 0 analyzer _ (omega arith) refl)
              λ a. Moves-Quiet 1 (omega arith) (review_and_maybe_revise-Quiet sv _ a))
            λ analysis.
              Leads-bind 1 2 _
                (Moves-bind 1 2 2 _ (run_stage-Moves 1 searcher _ (omega arith) refl)
                  λ a. Moves-Quiet 2 (omega arith) (review_and_maybe_revise-Quiet sv _ a))
                λ findings.
                  Leads-bind 2 3 _
                    (Moves-bind 2 3 3 _ (run_stage-Moves 2 modeler _ (omega arith) refl)
                      λ a. Moves-Quiet 3 (omega arith) (review_and_maybe_revise-Quiet sv _ a))
                    λ spec.
                      Leads-bind 3 4 _
                        (Moves-bind 3 4 4 _ (run_stage-Moves 3 coder _ (omega arith) refl)
                          λ a. Moves-Quiet 4 (omega arith) (rerun_coder-Quiet sv _ _ _ _ a))
                        λ coder_out.
                          Leads-bind 4 5 _
                            (Moves-bind 4 5 5 _ (run_stage-Moves 4 writer _ (omega arith) refl) λ a.
                              Moves-bind 5 5 5 _
                                (Moves-Quiet 5 (omega arith) (log_scan-Quiet sv h (ag.scan a)))
                                λ u.
                                  Moves-bind 5 5 5 _
                                    (Moves-Quiet 5 (omega arith)
                                      (review_and_maybe_revise-Quiet sv _ a))
                                    λ b. Moves-Quiet 5 (omega arith) (run_audit-Quiet sv _ b))
                            λ paper.
                              Leads-bind 5 5 _
                                (Moves-Quiet 5 (omega arith)
                                  (publish-Quiet sv h problem coder_out paper))
                                λ pdf. announce-Leads coder_out pdf

      recovered :
          (r : Result (Unit {0})) (s : RunState Num W)
          → Concludes (r, s)
          → Finished (recover (on_error sv h ag) r s)
      recovered (ok t) s c = c
      recovered (err e) s c = on_error-Finished e s c

      closed :
          (p : Result (Unit {0}) × RunState Num W) → Finished p → Finished (finally_close sv h ag p)
      closed (ok t, s) f = f
      closed (err e, s) f = f

      -- A run that has emitted no `done` and run no agent, when no event raises an `AgentError`:
      -- `run_pipeline` runs the five agents in order, each at most once. If it returns, its last
      -- event is the only `done`, with the status `success` after all five agents, else with
      -- `cancelled` or `failed`. What it raises is no `AgentError`, and then it has emitted no
      -- `done`, or one that came last.
      pub run_pipeline-Finished :
          (problem : ProblemInput) (s : RunState Num W)
          → tally s.calls ≡ ([], 0)
          → Finished (run_pipeline sv h ag problem s)
      unfolding run_pipeline
      run_pipeline-Finished problem s fresh =
          let s₀ = record s { tracker = CostTracker.start s.emitter.run_id; reminders = [] } in
          closed _ (
            recovered (stages sv h ag problem s₀).0 (stages sv h ag problem s₀).1
              ((stages-Leads problem).leads s₀ fresh))
