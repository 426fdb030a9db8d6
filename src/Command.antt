-- ===== src/Command.antt =====
-- The command language (bywaf/command): pipeline syntax, framework selectors, `$variables`, and the
-- parser that joins them.
pub mod Shlex
pub mod Quoting
pub mod PipelineSyntax
pub mod Selectors
pub mod Variables
pub mod Parser
