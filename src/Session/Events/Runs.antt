-- ===== src/Session/Events/Runs.antt =====
-- Runs one after the other.
use in_memory_object_storage.Common.{◌≡◌, ap, List, [], ◌∷◌, ◌++◌, ok, ◌>>=◌, >>=-eq-ok}
use in_memory_object_storage.Session.{Session}
use in_memory_object_storage.Session.Events.{Event, step, run}

-- What comes behind a run that has ended normally goes on from there.
pub run-append :
    (events later : List Event) (s t : Session)
    → run events s ≡ ok t
    → run (events ++ later) s ≡ run later t
unfolding run
run-append [] later s t e = ap (λ r. r >>= run later) e
run-append (event ∷ events) later s t e =
    let (x, f, g) = >>=-eq-ok (step event s) (run events) e in rw f (run-append events later x t g)
