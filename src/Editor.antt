-- ===== src/Editor.antt =====
-- editor_tools/tools.py and agents/paper_editor.py: the tools that fine-tune a generated paper and
-- the agent that runs them.
mod Tests
pub mod Sample
pub mod Args
pub mod Meta
pub mod Saving
pub mod Sections
pub mod Targets
pub mod Surgical
pub mod Registry
pub mod Reach
pub mod Agent
pub mod Notebook
pub mod Constant
pub mod Render
