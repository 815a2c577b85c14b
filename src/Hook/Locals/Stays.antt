-- ===== src/Hook/Locals/Stays.antt =====
-- A thread that has entered run() stays hooked.
use doroutine.Prelude.{ℕ, ◌≡◌, refl, Bool, true, none, some, List, [], ◌∷◌, ==_refl, arith}
use doroutine.Func.{Func}
use doroutine.Outcome.{done, undefined, ◌>>=◌}
use doroutine.Timer.{TimerManager}
use doroutine.Hook.Sleep.{sleep}
use doroutine.Hook.Locals.{
  Locals, construct, enter_run, destroy, Call, constructs, enters, destroys, perform, run, get_this,
  sleep_call,
}

perform-hooked : (l : Locals) (c : Call) → l.hook_enable ≡ true → (perform l c).hook_enable ≡ true
unfolding perform construct enter_run destroy
perform-hooked l (constructs self root b) h = ground arith
perform-hooked l (enters self main b) h = refl
perform-hooked l (destroys self) h = ground arith

run-hooked : (cs : List Call) (l : Locals) → l.hook_enable ≡ true → (run l cs).hook_enable ≡ true
unfolding run
run-hooked [] l h = h
run-hooked (c ∷ cs) l h = run-hooked cs (perform l c) (perform-hooked l c h)

module _ (is_io : ℕ → Bool) (timers : ℕ → TimerManager) (a now seconds : ℕ) (func : Func) where
  sleeps :
      (l : Locals) (s : ℕ)
      → l.hook_enable ≡ true
      → get_this is_io l ≡ some s
      → sleep_call is_io l timers a now seconds func
        ≡ (sleep (timers s) a now seconds func >>= λ m. done (some m))
  unfolding sleep_call
  sleeps l s on e = rw (on, e) refl

  sleeps_on_null :
      (l : Locals)
      → l.hook_enable ≡ true
      → get_this is_io l ≡ none
      → sleep_call is_io l timers a now seconds func ≡ undefined
  unfolding sleep_call
  sleeps_on_null l on e = rw (on, e) refl

-- The caller once its scheduler has run and is destroyed.
abandoned : (l : Locals) (self main root : ℕ) → Locals
unfolding run
abandoned l self main root =
    run l (constructs self root true ∷ enters self main true ∷ destroys self ∷ [])

abandoned_lem :
    (is_io : ℕ → Bool) (l : Locals) (self main root : ℕ)
    → ((abandoned l self main root).hook_enable ≡ true)
      × (get_this is_io (abandoned l self main root) ≡ none)
unfolding abandoned perform construct enter_run destroy get_this
abandoned_lem is_io l self main root = (ground (arith, ==_refl self), ground (arith, ==_refl self))

-- Once a thread has entered the run() of a scheduler it stays hooked, whatever schedulers are made,
-- run and destroyed in it later, as long as the program does not call setHookEnable. From then on
-- sleep() goes to the timers of the thread's IOManager, and if the thread has none it dereferences a
-- null pointer; it has none after the destructor of a scheduler that has used the thread as its
-- caller and run in it.
pub enter_run-Stays :
    (is_io : ℕ → Bool) (l : Locals) (self main : ℕ) (in_root : Bool) (cs : List Call)
    (timers : ℕ → TimerManager) (a now seconds : ℕ) (func : Func)
    → let l' = run (enter_run self main in_root l) cs in
      (l'.hook_enable ≡ true)
      × ((s : ℕ)
          → get_this is_io l' ≡ some s
          → sleep_call is_io l' timers a now seconds func
            ≡ (sleep (timers s) a now seconds func >>= λ m. done (some m)))
      × (get_this is_io l' ≡ none → sleep_call is_io l' timers a now seconds func ≡ undefined)
      × ((root : ℕ)
          → sleep_call is_io
              (run l (constructs self root true ∷ enters self main true ∷ destroys self ∷ []))
              timers
              a
              now
              seconds
              func
            ≡ undefined)
unfolding abandoned
enter_run-Stays is_io l self main in_root cs timers a now seconds func =
    let l' = run (enter_run self main in_root l) cs in
    let on : l'.hook_enable ≡ true =
      run-hooked cs (enter_run self main in_root l) (unfold enter_run in refl) in
    (
      on,
      λ s e. sleeps is_io timers a now seconds func l' s on e,
      λ e. sleeps_on_null is_io timers a now seconds func l' on e,
      λ root.
          let (hooked, null) = abandoned_lem is_io l self main root in
          sleeps_on_null is_io timers a now seconds func (abandoned l self main root) hooked null,
    )
