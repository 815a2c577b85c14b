-- ===== src/Lock.antt =====
-- include/mutex.h: ScopedLockImpl over a lock, of which it keeps whether it has locked it.
pub mod Scopes
mod Examples
use doroutine.Prelude.{Bool, true, false, Option, none, some, List, [], ◌∷◌, ◌++◌, if◌then◌else◌}

-- What a ScopedLockImpl calls on its lock.
pub data Call : Type 0 where
  locks unlocks : Call

-- m_locked, and the calls that the object has made on m_mtx.
pub record ScopedLock : Type 0 where
  pub locked : Bool
  pub calls : List Call

-- The constructor.
pub new_scoped_lock : ScopedLock
new_scoped_lock = record { locked = true; calls = locks ∷ [] }

pub lock : ScopedLock → ScopedLock
lock l = if l.locked then l else record { locked = true; calls = l.calls ++ locks ∷ [] }

pub unlock : ScopedLock → ScopedLock
unlock l = if l.locked then record { locked = false; calls = l.calls ++ unlocks ∷ [] } else l

-- The destructor: the calls that have been made at the end.
pub destroy : ScopedLock → List Call
destroy l = l.calls ++ unlocks ∷ []

-- The body of a scope, by the calls that it makes on the object.
pub run : List Call → ScopedLock → ScopedLock
unfolding lock unlock
run [] l = l
run (locks ∷ cs) l = run cs (lock l)
run (unlocks ∷ cs) l = run cs (unlock l)

-- Whether a lock is held at the end of some calls; none once it is locked by its holder, or unlocked
-- where it is free.
pub held : Bool → List Call → Option Bool
held h [] = some h
held false (locks ∷ cs) = held true cs
held true (unlocks ∷ cs) = held false cs
held true (locks ∷ cs) = none
held false (unlocks ∷ cs) = none
