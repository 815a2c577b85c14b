-- ===== src/Timer.antt =====
-- include/timer.h and src/timer.cpp. Timers are shared objects, so they stand in a store indexed by
-- their addresses, and the std::set holds addresses. The clock is the argument `now` of each call
-- that reads it, and a new object's address is an argument too, as the allocator chooses it.
pub mod Order
pub mod Set
pub mod Invariant
pub mod Calls
pub mod Range
pub mod Expiry
pub mod Expired
pub mod Race
pub mod Queries
pub mod Runs
pub mod Tickle
pub mod Front
pub mod Examples
use doroutine.Prelude.{
  ℕ, suc, ◌-◌, Bool, true, false, ◌&&◌, ◌||◌, not, Option, none, some, List, [], ◌∷◌, ◌++◌, ltb,
  ◌==◌, if◌then◌else◌, add64, sub64, u64_max, update,
}
use doroutine.Func.{Func, on_timer}
use doroutine.Outcome.{Outcome, done, undefined, ◌>>=◌, unlock}

pub record Timer : Type 0 where
  pub repeat : Bool
  pub period_in_ms : ℕ
  pub next : ℕ
  pub func : Option Func

pub record TimerManager : Type 0 where
  pub store : ℕ → Timer
  pub timers : List ℕ
  pub is_tickled : Bool
  pub previouse_time : ℕ
  -- How often the virtual onTimerInsertedAtFront() was called.
  pub front_calls : ℕ

abbrev pub has_func : Option Func → Bool
has_func none = false
has_func (some f) = true

-- Timer::Timer(ms, func, repeat, manager) and Timer::Timer(next).
unfoldable pub new_timer : ℕ → ℕ → Option Func → Bool → Timer
new_timer now ms func repeat = record {
  repeat = repeat;
  period_in_ms = ms;
  next = add64 now ms;
  func = func;
}

pub now_timer : ℕ → Timer
now_timer next = record { repeat = false; period_in_ms = 0; next = next; func = none }

pub new_manager : ℕ → TimerManager
unfolding now_timer
new_manager now = record {
  store = λ a. now_timer 0;
  timers = [];
  is_tickled = false;
  previouse_time = now;
  front_calls = 0;
}

-- Timer::Comparator, over null pointers too.
pub comparator : (ℕ → Timer) → Option ℕ → Option ℕ → Bool
comparator s none none = false
comparator s none (some b) = true
comparator s (some a) none = false
comparator s (some a) (some b) =
    if ltb (s a).next (s b).next
    then true
    else (if ltb (s b).next (s a).next then false else ltb a b)

pub lt : (ℕ → Timer) → ℕ → ℕ → Bool
unfolding comparator
lt s a b = comparator s (some a) (some b)

-- std::set::insert, find, erase of what find found, and lower_bound as the split that it makes.
pub insert : (ℕ → Timer) → ℕ → List ℕ → List ℕ
insert s a [] = a ∷ []
insert s a (b ∷ bs) =
    if lt s a b then a ∷ b ∷ bs else (if lt s b a then b ∷ insert s a bs else b ∷ bs)

pub find : (ℕ → Timer) → ℕ → List ℕ → Bool
find s a [] = false
find s a (b ∷ bs) = if lt s b a then find s a bs else not (lt s a b)

pub erase : (ℕ → Timer) → ℕ → List ℕ → List ℕ
erase s a [] = []
erase s a (b ∷ bs) = if lt s b a then b ∷ erase s a bs else (if lt s a b then b ∷ bs else bs)

pub lower_bound : (ℕ → Timer) → ℕ → List ℕ → List ℕ × List ℕ
lower_bound s p [] = ([], [])
lower_bound s p (b ∷ bs) =
    let (before, it) = lower_bound s p bs in if lt s b p then (b ∷ before, it) else ([], b ∷ bs)

-- `while(it != m_timers.end() && (*it)->m_next == nowInMs) ++it;`
pub skip_equal : (ℕ → Timer) → ℕ → List ℕ → List ℕ × List ℕ
skip_equal s now [] = ([], [])
skip_equal s now (b ∷ bs) =
    let (before, it) = skip_equal s now bs in
    if (s b).next == now then (b ∷ before, it) else ([], b ∷ bs)

abbrev pub is_begin : ℕ → List ℕ → Bool
is_begin a [] = false
is_begin a (b ∷ bs) = a == b

-- TimerManager::addTimer(timer, lck): the Boolean is whether `lck` owns the lock.
pub add_timer_locked : TimerManager → ℕ → Bool → Outcome (TimerManager × Bool)
add_timer_locked m a lck =
    let timers = insert m.store a m.timers in
    let is_first = is_begin a timers && not m.is_tickled in
    unlock lck >>= λ lck'. done (
      record m {
        timers = timers;
        is_tickled = is_first || m.is_tickled;
        front_calls = if is_first then suc m.front_calls else m.front_calls;
      },
      lck',
    )

-- TimerManager::addTimer(ms, func, repeat) and addConditionalTimer.
pub add_timer : TimerManager → ℕ → ℕ → ℕ → Option Func → Bool → Outcome TimerManager
unfolding new_timer add_timer_locked
add_timer m a now ms func repeat =
    add_timer_locked (record m { store = update m.store a (new_timer now ms func repeat) }) a true
    >>= λ r. done r.0

pub add_conditional_timer : TimerManager → ℕ → ℕ → ℕ → Func → ℕ → Bool → Outcome TimerManager
unfolding add_timer
add_conditional_timer m a now ms func weak_cond repeat =
    add_timer m a now ms (some (on_timer weak_cond func)) repeat

-- Timer::cancel: `erase(it)` is undefined where `it` is the end.
pub cancel : TimerManager → ℕ → Outcome (TimerManager × Bool)
cancel m a =
    let store = update m.store a (record (m.store a) { func = none }) in
    if has_func (m.store a).func
    then (if find store a m.timers
        then done (record m { store = store; timers = erase store a m.timers }, true)
        else undefined)
    else done (m, false)

pub refresh : TimerManager → ℕ → ℕ → Outcome (TimerManager × Bool)
unfolding add_timer_locked
refresh m now a =
    let t = m.store a in
    let erased = record m {
      store = update m.store a (record t { next = add64 now t.period_in_ms });
      timers = erase m.store a m.timers;
    } in
    if not (has_func t.func)
    then done (m, false)
    else (if not (find m.store a m.timers)
        then done (m, false)
        else (add_timer_locked erased a true >>= λ r. done (r.0, true)))

pub reset : TimerManager → ℕ → ℕ → ℕ → Bool → Outcome (TimerManager × Bool)
unfolding add_timer_locked
reset m now a ms from_now =
    let t = m.store a in
    let start = if from_now then now else sub64 t.next t.period_in_ms in
    let erased = record m {
      store = update m.store a (record t { period_in_ms = ms; next = add64 start ms });
      timers = erase m.store a m.timers;
    } in
    if ms == t.period_in_ms && not from_now
    then done (m, true)
    else (if not (has_func t.func)
        then done (m, false)
        else (if not (find m.store a m.timers)
            then done (m, false)
            else (add_timer_locked erased a true >>= λ r. done (r.0, true))))

abbrev pub is_empty : List ℕ → Bool
is_empty [] = true
is_empty (a ∷ bs) = false

pub has_timer : TimerManager → Bool
has_timer m = not (is_empty m.timers)

pub get_next_timer : TimerManager → ℕ → ℕ
get_next_timer m now = elim m.timers [
  | [] ↦ u64_max
  | a ∷ bs ↦ if ltb now (m.store a).next then (m.store a).next - now else 0
]

abbrev pub hour_ms : ℕ
hour_ms = 3600000

unfoldable pub detect_clock_rollover : TimerManager → ℕ → Bool
detect_clock_rollover m now = ltb now m.previouse_time && ltb now (sub64 m.previouse_time hour_ms)

-- The loop over `expired`. The lock is handed on, since each addTimer(timer, lck) unlocks it.
pub expire_one : ℕ → ℕ → TimerManager → Bool → Outcome (TimerManager × Bool)
unfolding add_timer_locked
expire_one now a m lck =
    let t = m.store a in
    if t.repeat
    then add_timer_locked
        (record m { store = update m.store a (record t { next = add64 now t.period_in_ms }) }) a lck
    else done (record m { store = update m.store a (record t { func = none }) }, lck)

pub expire_all : ℕ → List ℕ → TimerManager → Bool → Outcome (TimerManager × List (Option Func))
expire_all now [] m lck = done (m, [])
expire_all now (a ∷ bs) m lck = expire_one now a m lck >>= λ r.
    expire_all now bs r.0 r.1 >>= λ q. done (q.0, (m.store a).func ∷ q.1)

-- The range [m_timers.begin(), it) that is erased, and what stays.
pub expired_range : TimerManager → ℕ → ℕ → Bool → List ℕ × List ℕ
unfolding now_timer lower_bound skip_equal
expired_range m probe now rollover =
    let s = update m.store probe (now_timer now) in
    let (before, it) = lower_bound s probe m.timers in
    let (equal, rest) = skip_equal s now it in
    if rollover then (m.timers, []) else (before ++ equal, rest)

-- `(*m_timers.begin())->m_next > nowInMs`, of a set that is not empty.
abbrev pub front_after : (ℕ → Timer) → ℕ → List ℕ → Bool
front_after s now [] = false
front_after s now (a ∷ bs) = ltb now (s a).next

-- TimerManager::listExpiredFunc; `probe` is the address of `now_timer`. It is one step here, though
-- the lock is free from the first repeating timer on.
pub list_expired_func : TimerManager → ℕ → ℕ → Outcome (TimerManager × List (Option Func))
list_expired_func m probe now =
    let rollover = detect_clock_rollover m now in
    let seen = record m { previouse_time = now } in
    let range = expired_range m probe now rollover in
    if is_empty m.timers
    then done (m, [])
    else (if not rollover && front_after m.store now m.timers
        then done (seen, [])
        else expire_all now range.0 (record seen { timers = range.1 }) true)
