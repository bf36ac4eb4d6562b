-- ===== src/Server/Tests.antt =====
-- A server that fails to listen, then works, then stops.
use qth_frame.Base.{true, List, [], ◌∷◌}
use qth_frame.Server.{
  close_throws, uinits, new_server, listens, throws, taken, Call, inits, runs, accepts_end, calls,
}
use qth_frame.Server.States.{failures, IsServer, calls-IsServer}

abbrev day : List Call
day =
    inits throws
    ∷ inits listens
    ∷ runs true
    ∷ accepts_end taken true
    ∷ inits listens
    ∷ uinits close_throws
    ∷ []

calls-IsServer_example : IsServer (failures day) (calls day new_server)
calls-IsServer_example = calls-IsServer day
