-- ===== src/Lock/Scopes.antt =====
-- The calls that the scope of a ScopedLockImpl makes on its lock.
use doroutine.Prelude.{
  ◌≡◌, ◌∙◌, refl, ap, inl, inr, Bool, true, false, none, some, List, [], ◌∷◌, ◌++◌, Bool-cases,
  arith,
}
use doroutine.Lock.{
  Call, locks, unlocks, ScopedLock, new_scoped_lock, lock, unlock, destroy, run, held,
}

-- One more call.
held-append :
    (cs : List Call) (h h' : Bool) (c : Call)
    → held h cs ≡ some h'
    → held h (cs ++ c ∷ []) ≡ held h' (c ∷ [])
unfolding held
held-append [] h h' c e = ap (λ h. held h (c ∷ [])) (ground arith)
held-append (locks ∷ cs) false h' c e = held-append cs true h' c e
held-append (unlocks ∷ cs) true h' c e = held-append cs false h' c e
held-append (locks ∷ cs) true h' c e = cc
held-append (unlocks ∷ cs) false h' c e = cc

-- m_locked tells the truth.
abbrev IsTrue : ScopedLock → Type 0
IsTrue l = held false l.calls ≡ some l.locked

lock-IsTrue : (l : ScopedLock) → IsTrue l → IsTrue (lock l)
unfolding lock held
lock-IsTrue l v = elim (Bool-cases l.locked) [
  | inl e ↦ rw (e, lock) (v ∙ ap some e)
  | inr e ↦ rw (e, lock) (held-append l.calls false false locks (v ∙ ap some e))
]

unlock-IsTrue : (l : ScopedLock) → IsTrue l → IsTrue (unlock l)
unfolding unlock held
unlock-IsTrue l v = elim (Bool-cases l.locked) [
  | inl e ↦ rw (e, unlock) (held-append l.calls false true unlocks (v ∙ ap some e))
  | inr e ↦ rw (e, unlock) (v ∙ ap some e)
]

run-IsTrue : (cs : List Call) (l : ScopedLock) → IsTrue l → IsTrue (run cs l)
unfolding run
run-IsTrue [] l v = v
run-IsTrue (locks ∷ cs) l v = run-IsTrue cs (lock l) (lock-IsTrue l v)
run-IsTrue (unlocks ∷ cs) l v = run-IsTrue cs (unlock l) (unlock-IsTrue l v)

-- Whatever calls of lock() and unlock() the body of a scope makes on its scoped lock, the lock
-- itself is never locked by its holder and never unlocked where it is free, and m_locked says at the
-- end of the body whether it is held. If it is, the destructor frees it; if the body has left it
-- unlocked, the destructor unlocks a lock that this scope does not hold.
pub scope-Holds :
    (body : List Call)
    → let l = run body new_scoped_lock in
      (held false l.calls ≡ some l.locked)
      × (l.locked ≡ true → held false (destroy l) ≡ some false)
      × (l.locked ≡ false → held false (destroy l) ≡ none)
unfolding new_scoped_lock destroy held
scope-Holds body =
    let l = run body new_scoped_lock in
    let v = run-IsTrue body new_scoped_lock refl in
    (
      v,
      λ e. held-append l.calls false true unlocks (v ∙ ap some e),
      λ e. held-append l.calls false false unlocks (v ∙ ap some e),
    )
