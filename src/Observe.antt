-- ===== src/Observe.antt =====
-- internal/observe: the remote commands that the observations run, and what their output says.
pub mod ShellQuote
pub mod Status
