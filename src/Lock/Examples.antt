-- ===== src/Lock/Examples.antt =====
-- A scope that unlocks its lock, takes it again, and unlocks it once more.
use doroutine.Prelude.{◌≡◌, true, false, none, some, [], ◌∷◌}
use doroutine.Lock.{locks, unlocks, new_scoped_lock, destroy, run, held}
use doroutine.Lock.Scopes.{scope-Holds}

scope-Holds_example :
    let l = run (unlocks ∷ locks ∷ unlocks ∷ []) new_scoped_lock in
    (held false l.calls ≡ some l.locked)
    × (l.locked ≡ true → held false (destroy l) ≡ some false)
    × (l.locked ≡ false → held false (destroy l) ≡ none)
scope-Holds_example = scope-Holds (unlocks ∷ locks ∷ unlocks ∷ [])
