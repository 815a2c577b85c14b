-- ===== src/Doroutine/Machine.antt =====
-- Asymmetric coroutines: what the doroutines of a worker thread are to be, and when a thread is in
-- the state that a machine of them says.
use doroutine.Prelude.{
  ℕ, ◌≡◌, sym, subst, Bool, true, false, not, ◌&&◌, Option, none, some, List, [], ◌∷◌, ◌==◌,
  if◌then◌else◌, update,
}
use doroutine.Doroutine.{
  State, ready, running, term, is_term, Point, entry, midway, over, Context, Thread, Event, resumes,
  yields, finishes, resets, creates,
}

-- Who executes.
pub data Active : Type 0 where
  main_runs : Active
  runs : ℕ → Active
  -- The thread has ended.
  gone : Active

pub record Machine : Type 0 where
  pub states : ℕ → State
  -- Where a doroutine that does not execute is to go on.
  pub points : ℕ → Point
  pub active : Active

abbrev pub stops : ℕ → State → Point → Machine → Machine
stops a st p m = record {
  states = update m.states a st;
  points = update m.points a p;
  active = main_runs;
}

-- It is to go on at the start of WorkFunc.
abbrev pub prepares : ℕ → Machine → Machine
prepares a m = record m { states = update m.states a ready; points = update m.points a entry }

abbrev pub starts : ℕ → State → Machine → Option Machine
starts a ready m = some (record m { states = update m.states a running; active = runs a })
starts a running m = none
-- A doroutine that has ended is not to be resumed: the thread ends with it.
starts a term m = some (record m { states = update m.states a running; active = gone })

-- The coroutines of a thread whose main doroutine is at `mn`; none where the code must not do it.
unfoldable pub spec_on : ℕ → Active → Machine → Event → Option Machine
spec_on mn main_runs m (resumes a) = if a == mn then none else starts a (m.states a) m
spec_on mn (runs a) m yields = some (stops a ready midway m)
spec_on mn (runs a) m finishes = some (stops a term over m)
spec_on mn main_runs m (resets a f) =
    if not (a == mn) && is_term (m.states a) then some (prepares a m) else none
spec_on mn main_runs m (creates a f size b) = if a == mn then none else some (prepares a m)
spec_on mn gone m e = some m
spec_on mn _ m e = none

unfoldable pub spec : ℕ → Machine → Event → Option Machine
unfolding spec_on
spec mn m e = spec_on mn m.active m e

abbrev pub place : ℕ → Active → Option ℕ
place mn main_runs = some mn
place mn (runs a) = some a
place mn gone = none

abbrev pub is_over : Point → Bool
is_over over = true
is_over _ = false

-- A doroutine that does not execute goes on, on its own stack, at a point before its end; one that
-- has ended behind its end.
abbrev pub Rests : ℕ → State → Point → Context → Type 0
Rests a ready p c = (c ≡ record { stack = a; point = p }) × (is_over p ≡ false)
Rests a running p c = Unit {0}
Rests a term p c = is_over c.point ≡ true

-- The state that the code says a doroutine has, and the executing one.
abbrev pub Executes : ℕ → Thread → Machine → Active → Type 0
Executes mn t m main_runs = t.current ≡ some mn
Executes mn t m (runs a) =
    (t.current ≡ some a)
    × ((a == mn) ≡ false)
    × (m.states a ≡ running)
    × ((t.doroutines mn).ctx ≡ record { stack = mn; point = midway })
Executes mn t m gone = Unit {0}

pub record Implements (mn : ℕ) (t : Thread) (m : Machine) : Type 0 where
  pub main : t.main ≡ some mn
  pub scheduler : t.scheduler ≡ some mn
  pub on : t.on ≡ place mn m.active
  pub executes : Executes mn t m m.active
  pub same : (a : ℕ) → (a == mn) ≡ false → (t.doroutines a).state ≡ m.states a
  pub rests : (a : ℕ) → (a == mn) ≡ false → Rests a (m.states a) (m.points a) (t.doroutines a).ctx

pub Rests-congr :
    (a : ℕ) {st : State} (st' : State) {p : Point} (p' : Point) {c : Context} (c' : Context)
    → st ≡ st'
    → p ≡ p'
    → c ≡ c'
    → Rests a st' p' c'
    → Rests a st p c
Rests-congr a {st} st' {p} p' {c} c' e g f r =
    subst (λ s. Rests a s p c) (sym e)
      (subst (λ q. Rests a st' q c) (sym g) (subst (Rests a st' p') (sym f) r))

-- What the machine does of a list of events, as long as it allows them.
unfoldable pub replay : ℕ → Machine → List Event → Option Machine
unfolding spec
replay mn m [] = some m
replay mn m (e ∷ es) = elim (spec mn m e) [ none ↦ none | some m' ↦ replay mn m' es ]
