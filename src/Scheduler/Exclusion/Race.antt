-- ===== src/Scheduler/Exclusion/Race.antt =====
-- What two threads make of a doroutine that is in the queue twice.
use doroutine.Prelude.{
  ℕ, if_true, if_false, ==_refl, ◌==◌, ◌≡◌, ◌≢◌, refl, sym, ap, ℤ-discrete, ℕ_discrete, not, ◌∙◌,
  false, some, List, [], ◌∷◌, negsuc, get_elem?, get_elem?-set_ne, set, arith,
}
use doroutine.Doroutine.{State, ready, running, is_running, is_term}
use doroutine.Scheduler.{
  SchedulerTask, fetching, fetched, executing, Worker, Scheduler, pick, fetch, elsewhere, is_empty,
  is_ended, set_state, fetches, resumes, act, worker, step, run,
}
use doroutine.Scheduler.Serving.{get-set_self}

-- A task bound to no thread.
for_any : (w : Worker) (t : SchedulerTask) → t.thread ≡ negsuc 0 → elsewhere w.tid t ≡ false
unfolding ℤ-discrete ℕ_discrete
for_any w t h = rw h refl

-- A thread at the start of the loop takes the first task, where that one is free for it.
fetch_first :
    (s : Scheduler) (i : ℕ) (w : Worker) (d : ℕ) (t : SchedulerTask) (ts : List SchedulerTask)
    → get_elem? s.workers i ≡ some w
    → w.phase ≡ fetching
    → s.tasks ≡ t ∷ ts
    → t.doroutine ≡ some d
    → elsewhere w.tid t ≡ false
    → is_running (s.states d) ≡ false
    → let s' = step s (worker i fetches) in
      (s'.tasks ≡ ts)
      × (s'.workers ≡ set s.workers i (record w { phase = fetched t }))
      × (s'.states ≡ s.states)
unfolding step act fetch pick
fetch_first s i w d t ts at ph q n here idle =
    let e : step s (worker i fetches) ≡ fetch s i w = rw (at, step) (rw (ph, act) refl) in
    let picked : pick s.states w.tid s.tasks
        ≡ record { task = some t; rest = ts; tickle_me = not (is_empty ts) } =
      ap (pick s.states w.tid) q ∙ ground (arith, here, idle, n) in
    (
      ap (λ s. s.tasks) e ∙ rw (picked, fetch) (ap (λ p. p.rest) picked),
      ap (λ s. s.workers) e ∙ rw (picked, fetch) refl,
      ap (λ s. s.states) e ∙ rw (picked, fetch) refl,
    )

resume_taken :
    (s : Scheduler) (i : ℕ) (w : Worker) (t : SchedulerTask)
    → get_elem? s.workers i ≡ some w
    → w.phase ≡ fetched t
    → is_ended s.states t ≡ false
    → (step s (worker i resumes)).workers ≡ set s.workers i (record w { phase = executing t })
unfolding step act
resume_taken s i w t at ph live =
    let e : step s (worker i resumes) ≡ act (fetched t) resumes s i w =
      rw (at, step) (rw (ph, act) refl) in
    ap (λ s. s.workers) e ∙ ap (λ p. set s.workers i (record w { phase = p })) (if_false _ _ live)

resume_states :
    (s : Scheduler) (i : ℕ) (w : Worker) (t : SchedulerTask)
    → get_elem? s.workers i ≡ some w
    → w.phase ≡ fetched t
    → (step s (worker i resumes)).states ≡ set_state s.states t.doroutine running
unfolding step act
resume_states s i w t at ph =
    let e : step s (worker i resumes) ≡ act (fetched t) resumes s i w =
      rw (at, step) (rw (ph, act) refl) in
    ap (λ s. s.states) e

not_ended :
    (states : ℕ → State) (t : SchedulerTask) (d : ℕ)
    → t.doroutine ≡ some d
    → is_term (states d) ≡ false
    → is_ended states t ≡ false
not_ended states t d e h = rw e h

-- Where the first two tasks of the queue are of one doroutine that is READY, for any thread, and two
-- threads look for a task one after the other before the first resumes what it took, both resume the
-- doroutine: the scan asks for its state, and resume() alone sets that to RUNNING.
pub resumed_by_both :
    (s : Scheduler) (i j : ℕ) (w x : Worker) (d : ℕ) (t u : SchedulerTask) (ts : List SchedulerTask)
    → i ≢ j
    → get_elem? s.workers i ≡ some w
    → get_elem? s.workers j ≡ some x
    → w.phase ≡ fetching
    → x.phase ≡ fetching
    → s.tasks ≡ t ∷ u ∷ ts
    → t.doroutine ≡ some d
    → u.doroutine ≡ some d
    → t.thread ≡ negsuc 0
    → u.thread ≡ negsuc 0
    → s.states d ≡ ready
    → let s' =
        run s (worker i fetches ∷ worker j fetches ∷ worker i resumes ∷ worker j resumes ∷ []) in
      (get_elem? s'.workers i ≡ some (record w { phase = executing t }))
      × (get_elem? s'.workers j ≡ some (record x { phase = executing u }))
unfolding run
resumed_by_both s i j w x d t u ts n at bt wp xp q tn un tt' ut rests =
    let idle : is_running (s.states d) ≡ false = ap is_running rests in
    let w1 = record w { phase = fetched t } in
    let x2 = record x { phase = fetched u } in
    let w3 = record w { phase = executing t } in
    let x4 = record x { phase = executing u } in
    let s1 = step s (worker i fetches) in
    let s2 = step s1 (worker j fetches) in
    let s3 = step s2 (worker i resumes) in
    let (q1, ws1, st1) = fetch_first s i w d t (u ∷ ts) at wp q tn (for_any w t tt') idle in
    let b1 : get_elem? s1.workers j ≡ some x =
      ap (λ ws. get_elem? ws j) ws1 ∙ get_elem?-set_ne s.workers i j w1 n ∙ bt in
    let a1 : get_elem? s1.workers i ≡ some w1 =
      ap (λ ws. get_elem? ws i) ws1 ∙ get-set_self s.workers i w w1 at in
    let (q2, ws2, st2) =
      fetch_first s1 j x d u ts b1 xp q1 un (for_any x u ut)
        (ap (λ f. is_running (f d)) st1 ∙ idle) in
    let a2 : get_elem? s2.workers i ≡ some w1 =
      ap (λ ws. get_elem? ws i) ws2 ∙ get_elem?-set_ne s1.workers j i x2 (λ e. n (sym e)) ∙ a1 in
    let b2 : get_elem? s2.workers j ≡ some x2 =
      ap (λ ws. get_elem? ws j) ws2 ∙ get-set_self s1.workers j x x2 b1 in
    let live : is_term (s2.states d) ≡ false =
      ap (λ f. is_term (f d)) (st2 ∙ st1) ∙ ap is_term rests in
    let ws3 = resume_taken s2 i w1 t a2 refl (not_ended s2.states t d tn live) in
    let sets : s3.states d ≡ running =
      ap (λ f. f d) (resume_states s2 i w1 t a2 refl)
      ∙ ap (λ o. set_state s2.states o running d) tn
      ∙ if_true {b = d == d} running (s2.states d) (==_refl d) in
    let a3 : get_elem? s3.workers i ≡ some w3 =
      ap (λ ws. get_elem? ws i) ws3 ∙ get-set_self s2.workers i w1 w3 a2 in
    let b3 : get_elem? s3.workers j ≡ some x2 =
      ap (λ ws. get_elem? ws j) ws3 ∙ get_elem?-set_ne s2.workers i j w3 n ∙ b2 in
    let ws4 = resume_taken s3 j x2 u b3 refl (not_ended s3.states u d un (ap is_term sets)) in
    (
      ap (λ ws. get_elem? ws i) ws4 ∙ get_elem?-set_ne s3.workers j i x4 (λ e. n (sym e)) ∙ a3,
      ap (λ ws. get_elem? ws j) ws4 ∙ get-set_self s3.workers j x2 x4 b3,
    )
