-- ===== src/Scheduler/Serving.antt =====
-- run() as a loop of one thread alone, and that no other thread holds a task.
pub mod Steps
use doroutine.Prelude.{
  ℕ, zero, suc, fun_ext, ◌-◌, ◌≡◌, ◌∙◌, refl, sym, ap, subst, inl, inr, not, Bool, true, false,
  Option, none, some, List, [], ◌∷◌, ◌++◌, ℤ, get_elem?, set, Bool-cases, ◌==◌, arith,
}
use doroutine.Doroutine.{State, running, is_running}
use doroutine.Scheduler.{
  SchedulerTask, Phase, fetching, fetched, no_task, executing, leaving, lost, in_idle, exited,
  Worker, Scheduler, pick, elsewhere, is_busy, is_ended, is_empty, set_state, fetch, is_stopping,
  Action, fetches, resumes, yields, returns, idles, wakes, act, worker, step,
}

-- The states in which the doroutines of the tasks come back.
module _ (ends : SchedulerTask → State) where
  -- What a thread does next in the loop.
  abbrev pub next_action : Phase → Action
  next_action fetching = fetches
  next_action (fetched t) = resumes
  next_action (executing t) = yields (ends t)
  next_action (leaving t) = returns
  next_action (lost t) = fetches
  next_action no_task = idles
  next_action in_idle = wakes
  next_action exited = fetches

  unfoldable pub advance : ℕ → Scheduler → Scheduler
  unfolding step
  advance i s = elim (get_elem? s.workers i) [
    | none ↦ s
    | some w ↦ step s (worker i (next_action w.phase))
  ]

  unfoldable pub serve : ℕ → ℕ → Scheduler → Scheduler
  unfolding advance
  serve i zero s = s
  serve i (suc fuel) s = serve i fuel (advance i s)

-- The task is bound to no other thread than this one, and its doroutine comes back not RUNNING.
abbrev pub IsMine : (SchedulerTask → State) → ℤ → SchedulerTask → Type 0
IsMine ends tid t = (elsewhere tid t ≡ false) × (is_running (ends t) ≡ false)

abbrev pub holder : Phase → Option ℕ
holder (executing t) = t.doroutine
holder _ = none

abbrev pub busy : Phase → ℕ
busy (fetched t) = 1
busy (executing t) = 1
busy (leaving t) = 1
busy (lost t) = 1
busy _ = 0

-- No doroutine of the tasks is TERM at the turn of its task, as they are run in this order.
abbrev pub AreLive : (SchedulerTask → State) → (ℕ → State) → List SchedulerTask → Type 0
AreLive ends states [] = Unit {0}
AreLive ends states (t ∷ ts) =
    (is_ended states t ≡ false) × AreLive ends (set_state states t.doroutine (ends t)) ts

-- The states and the tasks that are ahead of a thread in a phase.
abbrev pub states_after : (SchedulerTask → State) → Phase → (ℕ → State) → ℕ → State
states_after ends (executing t) states = set_state states t.doroutine (ends t)
states_after ends _ states = states

abbrev pub ahead : Phase → List SchedulerTask → List SchedulerTask
ahead (fetched t) ts = t ∷ ts
ahead _ ts = ts

-- Thread `i` is in a phase, and no other holds a task.
pub record Serves (ends : SchedulerTask → State) (i : ℕ) (w : Worker) (ts ran : List SchedulerTask)
    (s : Scheduler) : Type 0 where
  pub at : get_elem? s.workers i ≡ some w
  pub stopping : s.stopping ≡ true
  pub tasks : s.tasks ≡ ts
  pub finished : s.finished ≡ ran
  pub active : s.active_thread_count ≡ busy w.phase
  pub live : AreLive ends (states_after ends w.phase s.states) (ahead w.phase ts)
  pub quiet : (d : ℕ) → is_running (s.states d) ≡ true → holder w.phase ≡ some d

pub get-set_self :
    (ws : List Worker) (i : ℕ) (w w' : Worker)
    → get_elem? ws i ≡ some w
    → get_elem? (set ws i w') i ≡ some w'
get-set_self [] i w w' h = cc
get-set_self (x ∷ xs) zero w w' h = refl
get-set_self (x ∷ xs) (suc i) w w' h = get-set_self xs i w w' h

pub only_running :
    (states : ℕ → State) (o : Option ℕ) (d : ℕ)
    → ((d : ℕ) → is_running (states d) ≡ true → none ≡ some d)
    → is_running (set_state states o running d) ≡ true
    → o ≡ some d
only_running states none d q h = q d h
only_running states (some e) d q h = elim (Bool-cases (e == d)) [
  | inl f ↦ ap some (ground arith)
  | inr f ↦ absurd (ground (arith, q d))
]

pub not_busy :
    (states : ℕ → State) (o : Option ℕ)
    → ((d : ℕ) → is_running (states d) ≡ true → none ≡ some d)
    → (elim o [ none ↦ false | some d ↦ is_running (states d) ]) ≡ false
not_busy states none q = refl
not_busy states (some d) q = elim (Bool-cases (is_running (states d))) [
  | inl e ↦ absurd (ground (arith, q d e))
  | inr e ↦ e
]

pub none_running :
    (states : ℕ → State) (o : Option ℕ) (st : State) (d : ℕ)
    → ((d : ℕ) → is_running (states d) ≡ true → o ≡ some d)
    → is_running st ≡ false
    → is_running (set_state states o st d) ≡ true
    → none ≡ some d
none_running states none st d q e h = q d h
none_running states (some f) st d q e h = elim (Bool-cases (f == d)) [
  | inl g ↦ absurd (ground arith)
  | inr g ↦ absurd (ground (arith, q d))
]

-- A doroutine that is resumed and comes back has the state in which it comes back.
pub set_state-set_state :
    (states : ℕ → State) (o : Option ℕ) (st st' : State)
    → set_state (set_state states o st) o st' ≡ set_state states o st'
set_state-set_state states none st st' = refl
set_state-set_state states (some e) st st' = fun_ext (λ d. ground arith)
