-- ===== src/Doroutine/Swaps.antt =====
-- The switches of context on a thread that is in the state of a machine.
use doroutine.Prelude.{
  ℕ, ◌≡◌, refl, sym, ap, subst, ◌∙◌, inl, inr, false, some, ◌==◌, ==_iff, if◌then◌else◌, update,
  Bool-cases, arith,
}
use doroutine.Outcome.{done}
use doroutine.Doroutine.{
  State, ready, running, term, is_term, Point, entry, midway, Doroutine, Thread, put, swap, home,
  resume, yield_at, run,
}
use doroutine.Doroutine.Machine.{
  main_runs, runs, gone, Machine, stops, prepares, Rests, Executes, Implements, Rests-congr,
}

module _ (mn : ℕ) (t : Thread) (m : Machine) (i : Implements mn t m) where
  home_main : (a : ℕ) → home t a ≡ some mn
  home_main a = ground (arith, i.main, i.scheduler)

  -- Both sides of a swap are on the main doroutine.
  abbrev pub entered : ℕ → Thread
  entered a =
      swap (put (record t { current = some a }) a (record (t.doroutines a) { state = running })) mn
        mn a midway

  pub resume_runs : (a : ℕ) → resume t mn a ≡ done (entered a)
  unfolding resume
  resume_runs a = rw (home_main a, resume) refl

  pub entered-Implements :
      (a : ℕ)
      → (a == mn) ≡ false
      → m.states a ≡ ready
      → Implements mn (entered a) (record m { states = update m.states a running; active = runs a })
  unfolding swap
  entered-Implements a other st =
      let rests : Rests a ready (m.points a) (t.doroutines a).ctx =
        subst (λ s. Rests a s (m.points a) (t.doroutines a).ctx) st (i.rests a other) in
      record {
        main = i.main;
        scheduler = i.scheduler;
        on = ground arith;
        executes = ground arith;
        same = λ b h. ground (arith, i.same b h);
        rests = λ b h. elim (Bool-cases (a == b)) [
          | inl e ↦ Rests-congr b running (m.points b) _ (ground arith) refl refl tt
          | inr e ↦
              Rests-congr b (m.states b) (m.points b) (t.doroutines b).ctx (ground arith) refl
                (ground arith) (i.rests b h)
        ];
      }

  -- What a yield leaves, of a thread `u` that differs from `t` at the doroutine alone.
  module _ (a : ℕ) (st : State) (point : Point) (u : Thread) (act : m.active ≡ runs a)
      (main_same : u.main ≡ some mn) (scheduler_same : u.scheduler ≡ some mn)
      (others_same : (b : ℕ) → (a == b) ≡ false → u.doroutines b ≡ t.doroutines b)
      (next : (if is_term (u.doroutines a).state then term else ready) ≡ st)
      (at : Rests a st point (record { stack = a; point = point })) where
    abbrev pub left : Thread
    left =
        swap
          (put (record u { current = u.main }) a
            (record (u.doroutines a) {
              state = if is_term (u.doroutines a).state then term else ready;
            }))
          a a mn point

    pub yield_runs : yield_at u a a point ≡ done left
    unfolding yield_at
    yield_runs =
        let h : home u a ≡ some mn = ground (arith, main_same, scheduler_same) in
        rw (h, yield_at) refl

    executing : Executes mn t m (runs a)
    executing = subst (Executes mn t m) act i.executes

    pub left-Implements : Implements mn left (stops a st point m)
    unfolding swap
    left-Implements =
        let (cur, other, run, ctx) = executing in
        let kept : u.doroutines mn ≡ t.doroutines mn = others_same mn other in
        record {
          main = main_same;
          scheduler = scheduler_same;
          on = ground (arith, kept, ctx);
          executes = main_same;
          same = λ b h. ground (arith, others_same b, i.same b h, next);
          rests = λ b h. elim (Bool-cases (a == b)) [
            | inl e ↦
                Rests-congr b st point (record { stack = b; point = point }) (ground arith)
                  (ground arith) (ground arith)
                  (subst (λ k. Rests k st point (record { stack = k; point = point }))
                    ((==_iff a b).0 e) at)
            | inr e ↦
                Rests-congr b (m.states b) (m.points b) (t.doroutines b).ctx (ground arith)
                  (ground arith) (ground (arith, others_same b e)) (i.rests b h)
          ];
        }

  -- A doroutine that was made or reset rests at the start of WorkFunc.
  pub prepared-Implements :
      (a : ℕ) (d : Doroutine) (u : Thread)
      → m.active ≡ main_runs
      → (a == mn) ≡ false
      → u.main ≡ t.main
      → u.scheduler ≡ t.scheduler
      → u.on ≡ t.on
      → u.current ≡ t.current
      → u.doroutines ≡ update t.doroutines a d
      → d.state ≡ ready
      → d.ctx ≡ record { stack = a; point = entry }
      → Implements mn u (prepares a m)
  prepared-Implements a d u act other em es eo ec ed st cx = record {
    main = em ∙ i.main;
    scheduler = es ∙ i.scheduler;
    on = eo ∙ i.on;
    executes =
        subst (Executes mn u (prepares a m)) (sym act)
          (ec ∙ subst (Executes mn t m) act i.executes);
    same = λ b h. ap (λ f. (f b).state) ed ∙ ground (arith, i.same b h);
    rests = λ b h. elim (Bool-cases (a == b)) [
      | inl e ↦
          Rests-congr b ready entry (record { stack = b; point = entry }) (ground arith)
            (ground arith) (ap (λ f. (f b).ctx) ed ∙ ground arith) (refl, refl)
      | inr e ↦
          Rests-congr b (m.states b) (m.points b) (t.doroutines b).ctx (ground arith) (ground arith)
            (ap (λ f. (f b).ctx) ed ∙ ground arith) (i.rests b h)
    ];
  }

  -- The doroutine that has ended runs off the end of WorkFunc.
  pub entered_gone-Implements :
      (a : ℕ)
      → (a == mn) ≡ false
      → m.states a ≡ term
      → Implements mn (entered a) (record m { states = update m.states a running; active = gone })
  unfolding swap
  entered_gone-Implements a other st =
      let rests : Rests a term (m.points a) (t.doroutines a).ctx =
        subst (λ s. Rests a s (m.points a) (t.doroutines a).ctx) st (i.rests a other) in
      record {
        main = i.main;
        scheduler = i.scheduler;
        on = ground arith;
        executes = tt;
        same = λ b h. ground (arith, i.same b h);
        rests = λ b h. elim (Bool-cases (a == b)) [
          | inl e ↦ Rests-congr b running (m.points b) _ (ground arith) refl refl tt
          | inr e ↦
              Rests-congr b (m.states b) (m.points b) (t.doroutines b).ctx (ground arith) refl
                (ground arith) (i.rests b h)
        ];
      }
