-- ===== src/Examples/Program.antt =====
-- A run of the program, at concrete inputs.
use hcom4db.Base.{refl, List, [], ◌∷◌, none, some}
use hcom4db.Hcom.World.{World}
use hcom4db.Program.{Operation, perform}
use hcom4db.Program.Unlocked.{run, run-HoldsNone}
use hcom4db.Server.Locks.{HoldsNone}
use hcom4db.Examples.Server.{serving, serving-HoldsNone, svc}

abbrev empty : World
empty = record serving { handle_map = [] }

-- A service is added, a message received, and the server destroyed.
abbrev last : World
last =
    perform (Operation.destroy 5)
      (perform (Operation.receive 8) (perform (Operation.add_service 5 (some svc)) empty))

-- A service is added, refused for a server that is not on record, replied to, and both destroyed.
abbrev served : List Operation
served =
    Operation.add_service 5 (some svc)
    ∷ Operation.add_service 6 (some svc)
    ∷ Operation.reply 8 3 none none
    ∷ Operation.destroy 6
    ∷ Operation.destroy 5
    ∷ []

run-HoldsNone_example : HoldsNone (run served serving)
run-HoldsNone_example =
    run-HoldsNone served serving (refl, (refl, (refl, (refl, (refl, tt))))) serving-HoldsNone
