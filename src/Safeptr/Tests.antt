-- ===== src/Safeptr/Tests.antt =====
-- A safe pointer at work.
use mdb_linux.Base.{◌+◌, ◌≡◌, refl, true, false, List, [], ◌∷◌, none, some}
use mdb_linux.Safeptr
use mdb_linux.Safeptr.{Safeptr, Counts, retain}
use mdb_linux.Safeptr.Balance.{Call, set, get, calls, all_held, free-calls}

-- One reference to each object.
abbrev owned : Counts
owned q = 1

abbrev shared : Safeptr
shared = record { ptr = some 3 }

-- A topology is read, replaced by another one, and not read when the lock fails.
abbrev turns : List Call
turns = get true ∷ set true (some 8) ∷ get false ∷ set true none ∷ set false (some 3) ∷ []

free-calls_example :
    Safeptr.free
      (some (calls turns ([], (shared, retain 3 owned))).1.0)
      (calls turns ([], (shared, retain 3 owned))).1.1
      3
    ≡ owned 3 + all_held (calls turns ([], (shared, retain 3 owned))).0 3
unfolding Safeptr.create
free-calls_example = free-calls (some 3) owned (retain 3 owned) shared turns 3 refl
