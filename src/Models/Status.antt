-- ===== src/Models/Status.antt =====
-- runtime_service/models.py, `RunStatus`.
use mathlib.Core.Bool.{Bool, true, false}

pub data RunStatus : Type 0 where
  queued running completed failed cancelled : RunStatus

abbrev pub is_terminal : RunStatus → Bool
is_terminal completed = true
is_terminal failed = true
is_terminal cancelled = true
is_terminal _ = false

-- `status = 'queued'` and `status = 'running'`
abbrev pub is_queued : RunStatus → Bool
is_queued queued = true
is_queued _ = false

abbrev pub is_running : RunStatus → Bool
is_running running = true
is_running _ = false
