-- ===== src/Server/Session.antt =====
-- internal/server: what a session over a connection leaves.
use rawth.Base.{◌++◌}
use rawth.Bytes.{Bytes}
use rawth.Storage.Engine.{Engine}

-- The client left, the connection ended, the goroutine panicked, or a loop ran out of fuel.
pub data Ending : Type 0 where
  left hung_up crashed ran_out : Ending

pub record Session : Type 0 where
  pub written : Bytes
  pub engine : Engine
  pub ending : Ending

abbrev pub ends_with : Ending → Bytes → Engine → Session
ends_with ending written e = record { written = written; engine = e; ending = ending }

-- What is written before the rest of a session.
abbrev pub write_first : Bytes → Session → Session
write_first xs s = record { written = xs ++ s.written; engine = s.engine; ending = s.ending }
