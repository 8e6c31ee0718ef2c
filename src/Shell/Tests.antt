-- ===== src/Shell/Tests.antt =====
-- Runs of the editor, the history, the parser, the commands and the keys on small inputs, and the
-- theorems at such inputs.
mod Editor
mod Recall
mod Command
mod Keys
