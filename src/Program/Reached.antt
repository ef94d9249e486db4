-- ===== src/Program/Reached.antt =====
-- Every world that a run of the program of src/hcom4db.cpp reaches is sound.
use hcom4db.Base.Maps.{int_eq}
use hcom4db.Hcom.World.{World}
