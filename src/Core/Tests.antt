-- ===== src/Core/Tests.antt =====
-- The theorems on crates/core at concrete inputs.
use peerless_server.Prelude.{Option, some, Text, text}

abbrev variables : Text → Option Text
variables name = some (text "7")
