-- ===== src/Log.antt =====
-- src/log.h and src/log.cc: a logger that can be turned on and off.
use byzantine_agreement.Common.{Bool, false, [], ◌++◌, Text, if◌then◌else◌}

-- `output` is what was written to the stream so far.
pub record Logger : Type 0 where
  pub output : Text
  pub enabled : Bool

-- `logging::out` at the start
abbrev pub out : Logger
out = record { output = []; enabled = false }

unfoldable pub enable : Logger → Bool → Logger
enable logger on = record logger { enabled = on }

-- `operator<<` for what prints as the text.
unfoldable pub put : Logger → Text → Logger
put logger text =
    if logger.enabled then record logger { output = logger.output ++ text } else logger
