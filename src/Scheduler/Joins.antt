-- ===== src/Scheduler/Joins.antt =====
-- The end of stop(): a join of each thread of the pool.
use doroutine.Prelude.{
  ◌≡◌, ◌≢◌, refl, ◌⊎◌, inl, inr, Bool, true, false, ◌&&◌, some, List, [], ◌∷◌, ℤ, get_elem?, arith,
}
use doroutine.Scheduler.{
  Phase, fetching, fetched, no_task, executing, leaving, lost, in_idle, exited, Worker, Event, run,
  started,
}
use doroutine.Scheduler.Invariant.{fresh_workers, has_left, exited_after_stop}

abbrev pub has_ended : Phase → Bool
has_ended exited = true
has_ended (lost t) = true
has_ended _ = false

-- `i->join()` returns once the thread has left run(), or has ended in a doroutine.
pub joins_return : List Worker → Bool
joins_return [] = true
joins_return (w ∷ ws) = has_ended w.phase && joins_return ws

abbrev pub IsLost : Phase → Type 0
IsLost (lost t) = Unit {0}
IsLost _ = ⊥

left_or_IsLost : (ph : Phase) → has_ended ph ≡ true → (has_left ph ≡ true) ⊎ IsLost ph
left_or_IsLost exited h = inl refl
left_or_IsLost (lost t) h = inr tt
left_or_IsLost fetching h = cc
left_or_IsLost (fetched t) h = cc
left_or_IsLost no_task h = cc
left_or_IsLost (executing t) h = cc
left_or_IsLost (leaving t) h = cc
left_or_IsLost in_idle h = cc

joined_first :
    (ws : List Worker)
    → joins_return ws ≡ true
    → ws ≢ []
    → (w : Worker) × (get_elem? ws 0 ≡ some w) × (has_ended w.phase ≡ true)
unfolding joins_return
joined_first [] h n = absurd (n refl)
joined_first (w ∷ ws) h n = (w, refl, ground arith)

-- The joins of a pool that has threads can return only after stop() was called, or once its first
-- thread has ended in a doroutine that was resumed after its end.
joined_after_stop :
    (tids : List ℤ) (es : List Event)
    → let s = run (started (fresh_workers tids)) es in
      s.workers ≢ []
      → joins_return s.workers ≡ true
      → (s.stopping ≡ true) ⊎ ((w : Worker) × (get_elem? s.workers 0 ≡ some w) × IsLost w.phase)
joined_after_stop tids es n h =
    let s = run (started (fresh_workers tids)) es in
    let (w, at, ended) = joined_first s.workers h n in
    elim (left_or_IsLost w.phase ended) [
      | inl left ↦ inl (exited_after_stop tids es 0 w at left)
      | inr gone ↦ inr (w, at, gone)
    ]
