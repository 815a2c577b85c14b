-- ===== src/IoManager/Loop/Waits.antt =====
-- The retries of epoll_wait.
use doroutine.Prelude.{ℕ, zero, suc, ◌^◌, ◌<◌, ◌≡◌, ap, ◌∙◌, [], ◌∷◌, pos, replicate, arith}
use Prim.Native.Nat.{min}
use doroutine.IoManager.Idle.{to_int, max_timeout}
use doroutine.IoManager.Loop.{clamped, waits}

clamped_small : (next : ℕ) → next < 2 ^ 31 → clamped next ≡ min next max_timeout
unfolding clamped
clamped_small next h = ground arith

first_wait : (next : ℕ) → next < 2 ^ 31 → to_int (clamped next) ≡ pos (min next max_timeout)
first_wait next h = rw (clamped_small next h) (ground arith)

-- A wait that is interrupted starts again with its whole time, however long it has waited: if the
-- next timer is due in less than 2 ^ 31 ms, each call of epoll_wait has that time as its timeout, but 5
-- seconds at most.
pub waits_again :
    (n next : ℕ) → next < 2 ^ 31 → waits next n ≡ replicate (suc n) (pos (min next max_timeout))
unfolding waits
waits_again zero next h = ap (λ t. t ∷ []) (first_wait next h)
waits_again (suc n) next h =
    let small : clamped next < 2 ^ 31 = rw (clamped_small next h) (omega arith) in
    let same : min (clamped next) max_timeout ≡ min next max_timeout =
      rw (clamped_small next h) (omega arith) in
    ap (λ t. t ∷ waits (clamped next) n) (first_wait next h)
    ∙ ap (◌∷◌ (pos (min next max_timeout)))
        (waits_again n (clamped next) small ∙ ap (λ k. replicate (suc n) (pos k)) same)
