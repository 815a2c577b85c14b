-- ===== src/Scheduler/Counting.antt =====
-- Counting tasks and workers.
use doroutine.Doroutine.{State}
use doroutine.Prelude.{
  ℕ, zero, suc, ◌+◌, ◌≡◌, subst, inl, inr, Bool, none, some, List, [], ◌∷◌, ◌++◌, ℤ, All, get_elem?,
  set, if◌then◌else◌, arith,
}
use doroutine.Scheduler.{SchedulerTask, Worker, pick}
use doroutine.Scheduler.Queue.{pick-Picks}

-- How many of the tasks satisfy a test.
abbrev pub count : (SchedulerTask → Bool) → List SchedulerTask → ℕ
count p [] = 0
count p (t ∷ ts) = (if p t then 1 else 0) + count p ts

abbrev pub sum : (Worker → ℕ) → List Worker → ℕ
sum f [] = 0
sum f (w ∷ ws) = f w + sum f ws

pub count-append :
    (p : SchedulerTask → Bool) (ts us : List SchedulerTask)
    → count p (ts ++ us) ≡ count p ts + count p us
count-append p [] us = omega arith
count-append p (t ∷ ts) us = omega (arith, count-append p ts us)

pub sum-set :
    (f : Worker → ℕ) (ws : List Worker) (i : ℕ) (w w' : Worker)
    → get_elem? ws i ≡ some w
    → sum f (set ws i w') + f w ≡ sum f ws + f w'
sum-set f [] i w w' h = cc
sum-set f (x ∷ xs) zero w w' h = ground arith
sum-set f (x ∷ xs) (suc i) w w' h = omega (arith, sum-set f xs i w w' h)

pub All-set :
    (P : Worker → Type 0) (ws : List Worker) (i : ℕ) (w : Worker)
    → All P ws
    → P w
    → All P (set ws i w)
All-set P [] i w h p = tt
All-set P (x ∷ xs) zero w h p = (p, h.1)
All-set P (x ∷ xs) (suc i) w h p = (h.0, All-set P xs i w h.1 p)

pub All-get :
    (P : Worker → Type 0) (ws : List Worker) (i : ℕ) (w : Worker)
    → All P ws
    → get_elem? ws i ≡ some w
    → P w
All-get P [] i w h e = cc
All-get P (x ∷ xs) zero w h e = subst P (cc) h.0
All-get P (x ∷ xs) (suc i) w h e = All-get P xs i w h.1 e

-- What is taken from the queue is what the thread gets.
pub count-pick :
    (states : ℕ → State) (tid : ℤ) (p : SchedulerTask → Bool) (ts : List SchedulerTask)
    → count p ts
      ≡ count p (pick states tid ts).rest
        + (elim (pick states tid ts).task [ none ↦ 0 | some t ↦ if p t then 1 else 0 ])
count-pick states tid p ts = elim (pick-Picks states tid ts) [
  | inl (a, b, c, d) ↦ rw (a, b) (omega arith)
  | inr (t, before, after, a, b, c, d, f, g) ↦
      rw (a, c)
        (rw b (omega (arith, count-append p before (t ∷ after), count-append p before after)))
]
