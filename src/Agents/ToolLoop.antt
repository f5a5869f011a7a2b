-- ===== src/Agents/ToolLoop.antt =====
-- src/evoci/agents/tool_loop.py: the conversation of one leaf agent with its model and its tools.
-- Texts that the code hands to `json.dumps` are kept as the values they are made of.
pub mod Pages
pub mod Calls
pub mod Answers
pub mod Turns
pub mod Run
pub mod Stages
pub mod Protocol
pub mod Spending
pub mod Credit
