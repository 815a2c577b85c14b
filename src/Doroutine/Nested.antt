-- ===== src/Doroutine/Nested.antt =====
-- A doroutine that resumes another one, as the main doroutine does.
use doroutine.Prelude.{
  ℕ, zero, suc, ◌≡◌, refl, ap, subst, ◌∙◌, false, some, ◌∷◌, ◌==◌, if◌then◌else◌, replicate, arith,
}
use doroutine.Outcome.{done, ◌>>=◌}
use doroutine.Doroutine.{
  ready, running, term, is_term, midway, Thread, put, swap, home, resume, yield_at, resumes, yields,
  step_from, step, run,
}
use doroutine.Doroutine.Machine.{runs, Machine, place, Rests, Implements}

-- A doroutine executes, and the main one is said to.
record IsLost (mn a : ℕ) (t : Thread) : Type 0 where
  main : t.main ≡ some mn
  scheduler : t.scheduler ≡ some mn
  on : t.on ≡ some a
  current : t.current ≡ some mn

module _ (mn a : ℕ) (t : Thread) (l : IsLost mn a t) where
  abbrev again : Thread
  again =
      swap
        (put (record t { current = t.main }) mn
          (record (t.doroutines mn) {
            state = if is_term (t.doroutines mn).state then term else ready;
          }))
        a mn mn midway

  again_runs : step t yields ≡ done again
  unfolding step yield_at
  again_runs =
      let h : home t mn ≡ some mn = ground (arith, l.main, l.scheduler) in
      ap (λ o. step_from o t yields) l.on ∙ rw l.current (rw (h, yield_at) refl)

  again-IsLost : IsLost mn a again
  unfolding swap
  again-IsLost = record {
    main = l.main;
    scheduler = l.scheduler;
    on = ground arith;
    current = l.main;
  }

stays-IsLost :
    (mn a n : ℕ) (t : Thread)
    → IsLost mn a t
    → (t' : Thread) × (run t (replicate n yields) ≡ done t') × IsLost mn a t'
unfolding run
stays-IsLost mn a zero t l = (t, refl, l)
stays-IsLost mn a (suc n) t l =
    let (t', r, l') = stays-IsLost mn a n (again mn a t l) (again-IsLost mn a t l) in
    (t', ap (λ o. o >>= λ u. run u (replicate n yields)) (again_runs mn a t l) ∙ r, l')

module _ (mn a b : ℕ) (t : Thread) (m : Machine) (i : Implements mn t m) (act : m.active ≡ runs a)
    (other : (b == mn) ≡ false) (rests : m.states b ≡ ready) where
  homes : (d : ℕ) → home t d ≡ some mn
  homes d = ground (arith, i.main, i.scheduler)

  -- Inside the second doroutine: the main context is the first one's now.
  abbrev inner : Thread
  inner =
      swap (put (record t { current = some b }) b (record (t.doroutines b) { state = running })) a
        mn b midway

  on_a : t.on ≡ some a
  on_a = i.on ∙ ap (place mn) act

  inner_runs : step t (resumes b) ≡ done inner
  unfolding step resume
  inner_runs = ap (λ o. step_from o t (resumes b)) on_a ∙ rw (homes b, resume) refl

  b-Rests : Rests b ready (m.points b) (t.doroutines b).ctx
  b-Rests = subst (λ s. Rests b s (m.points b) (t.doroutines b).ctx) rests (i.rests b other)

  inner_on : inner.on ≡ some b
  unfolding swap
  inner_on = ground (arith, b-Rests)

  inner_main : (inner.doroutines mn).ctx ≡ record { stack = a; point = midway }
  unfolding swap
  inner_main = ground arith

  -- Back in the first one, by the second one's yield.
  abbrev back : Thread
  back =
      swap
        (put (record inner { current = inner.main }) b
          (record (inner.doroutines b) {
            state = if is_term (inner.doroutines b).state then term else ready;
          }))
        b b mn midway

  back_runs : step inner yields ≡ done back
  unfolding step yield_at swap
  back_runs =
      let h : home inner b ≡ some mn = ground (arith, i.main, i.scheduler) in
      ap (λ o. step_from o inner yields) inner_on ∙ rw (h, yield_at) refl

  back-IsLost : IsLost mn a back
  unfolding swap
  back-IsLost = record {
    main = i.main;
    scheduler = i.scheduler;
    on = ground (arith, inner_main);
    current = i.main;
  }

  -- Where a doroutine resumes another one that is READY, and that one yields, the first goes on, but
  -- its main doroutine's context is lost: however often it yields after that, it goes on itself, as
  -- GetThis() is the main doroutine, whose yield switches to where it stands.
  pub nested_resume-never_returns :
      (n : ℕ)
      → (t' : Thread) × (run t (resumes b ∷ yields ∷ replicate n yields) ≡ done t')
        × (t'.on ≡ some a)
        × (t'.current ≡ some mn)
  unfolding run
  nested_resume-never_returns n =
      let (t', r, l) = stays-IsLost mn a n back back-IsLost in
      (
        t',
        ap (λ o. o >>= λ u. run u (yields ∷ replicate n yields)) inner_runs
            ∙ ap (λ o. o >>= λ u. run u (replicate n yields)) back_runs
            ∙ r,
        l.on,
        l.current,
      )
