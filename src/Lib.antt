-- ===== src/Lib.antt =====
-- The agent worker of the mathodology repository (apps/agent-worker/src/agent_worker), with the
-- contracts it shares (packages/py-contracts/src/mm_contracts/agent_io.py). The worker runs five
-- agents in order, Analyzer, Searcher, Modeler, Coder and Writer; after each one the Critic
-- reviews what the agent made, which may be revised within a number of rounds and a budget.
--
-- Which file is about which part:
--   Contracts      agent_io.py: the Critic's report and its derived properties; in Artifacts the
--                  problem and what the stages hand on
--   Hooks          agents/hooks.py: post-stage hooks, `aggregate`, `critique_to_hook_result`
--   Compactor      compactor.py: `Compactor.compact` and its circuit breaker
--   Events         events.py: `EventEmitter.emit`
--   CostTracker    cost_tracker.py: `RunCostTracker`
--   Cancellation   cancellation.py: `CancellationChecker`
--   Streaming      agents/base.py: `_stream_with_retry`
--   Audit          audit.py: the checks, `AuditReport` and `run_paper_audit`
--   Pipeline       pipeline.py: the policy (Policy), the state of a run (State),
--                  `_review_and_maybe_revise` (Review), `_review_and_maybe_rerun_coder` (Rerun),
--                  `_substitute_figure_placeholders`, `_build_paper_meta` and
--                  `_render_paper_markdown` (Paper), `_run_audit_and_maybe_revise` (AuditGate),
--                  `run_pipeline` and `_auto_export_pdf` (Run)
--   Editor         editor_tools/tools.py: the metadata, the context and the directory (Meta,
--                  Saving), the arguments of a call (Args), `read_paper` and `edit_section`
--                  (Sections), `surgical_edit` (Targets, Surgical), `run_cell`, `regenerate_figure` and `recompile_pdf`
--                  (Notebook), `edit_constant` (Constant), `build_tool_registry` (Registry), the
--                  changes that a tool can make as steps (Reach); agents/paper_editor.py (Agent)
--   Fence          agents/base.py: `_strip_json_fence`
--   Agent          agents/base.py: `BaseAgent.run`, `revise_with_critique`, the parsing of a reply
--   Coder          agents/coder.py: `CoderAgent._ask_llm`, the lookup of skills and the feedback;
--                  the execution loop of `CoderAgent.run` (Loop)
--   Exec, Text, Float, Prelude: what these share: exceptions over a state, strings as lists of
--                  code points, the arithmetic of floats, lists
--
-- How the parts meet: the loop of Pipeline/Review reads the spend through CostTracker, judges the
-- reports of Contracts with the policy, and turns the last report, by Hooks, into a reminder for
-- the next stage and an event of Events. Pipeline/Run composes the stages: each polls the flag of
-- Cancellation, runs its agent on the reminder left for it and goes through its review; then the
-- paper passes the gate, which runs Audit on the document that Pipeline/Paper renders.
--
-- The editor works on a finished paper, outside the pipeline: its agent asks a model for one tool
-- call at a time, and the tools change the metadata and the notebook in memory and write them to the
-- run's directory, where a write may fail and the code of a cell may change the files (Saving says
-- what a write that returns has done). Its renderer of paper.md is compared with the pipeline's.
--
-- A method is a function from a state to a result and a state, so that the state survives an
-- exception. Redis, the clock, the disk, the gateway and the language models are outside: one type
-- `W` holds their state, and the calls of them are parameters that may change it and may raise.
-- The Critic's review and an agent's revision are arguments of the loop, as in the source, and the
-- agents are arguments of the run; the events that they emit themselves are part of what they do to
-- `W`. The emitter's cached number is for logging only, so it is not carried out of them. Floats
-- are a parameter with the operations that the code uses and no laws. Texts are lists of code
-- points; a run's id is its text.
--
-- The loop of rounds is structural in the rounds that are left, which the policy bounds, and the
-- retries in the list of delays; neither needs fuel. The loops of the editor and of the Coder are
-- structural in the iterations that are left, the Coder's lookups in the budget that is left. Calls
-- that a run makes of its collaborators are recorded in its state, newest first, for the theorems to
-- speak of.
--
-- A regular expression is written as a scanner: a literal, a longest run of a class, and a count of
-- the characters of a match that are still to be skipped. Unicode's tables, `Path(p).stem`, the
-- encoding of JSON and the classes of `httpx` errors are parameters.
--
-- The streaming call, the reading of a reply and the rendering of the prompts are arguments of the
-- Coder's run; so are the kernels, MATLAB and the skill tool.
--
-- Not modelled: what the five agents say to the models (their prompts), the scan of
-- agents/evidence.py (a parameter of the run), the search tools, the kernels, the
-- setting up of a run and the process around the pipeline. Log lines of Python's `logging` are left
-- out. Closing the gateway's client at the end is taken not to raise.
pub mod Prelude
pub mod Text
pub mod Exec
pub mod Float
pub mod Contracts
pub mod Hooks
pub mod Compactor
pub mod Events
pub mod CostTracker
pub mod Cancellation
pub mod Streaming
pub mod Fence
pub mod Agent
pub mod Coder
pub mod Audit
pub mod Pipeline
pub mod Editor
