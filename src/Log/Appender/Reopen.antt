-- ===== src/Log/Appender/Reopen.antt =====
-- The file of a FileLogAppender: when it is opened again, and what an error of writing leads to.
use doroutine.Prelude.{
  ℕ, ◌≤◌, ◌<◌, ◌≡◌, refl, ap, subst, ◌∙◌, sym, inl, inr, true, false, not, none, some, List, [],
  ◌∷◌, leb, if◌then◌else◌, if_true, if_false, add64, Bool-cases, arith,
}
use doroutine.Log.Event.{Text}
use doroutine.Log.Stream.{OfStream}
use doroutine.Log.Appender.{FileOut, reopen, refresh, file_log}

module _ (files : OfStream) where
  open files use {
    State, good, is_open, open_app, close, write, open_app_twice, open_app_keeps, open_app_good,
    is_open-write,
  }

  -- The events that come after each other, with the texts that reach the stream.
  unfoldable pub file_logs : FileOut files → List (ℕ × Text) → FileOut files × List Text
  file_logs f [] = (f, [])
  file_logs f ((now, text) ∷ es) =
      let (f', sent) = file_log files f now text in
      let (f'', more) = file_logs f' es in (f'', elim sent [ none ↦ more | some s ↦ s ∷ more ])

  -- The stream is open and failed: its file is never closed again.
  abbrev pub IsStuck : FileOut files → Type 0
  IsStuck f = (is_open f.stream ≡ true) × (good f.stream ≡ false)

  reopen-IsStuck :
      (f : FileOut files)
      → IsStuck f
      → IsStuck (reopen files f) × ((reopen files f).reopen_error ≡ true)
  unfolding reopen
  reopen-IsStuck f (o, g) =
      let same : (if good f.stream then close f.stream else f.stream) ≡ f.stream = if_false _ _ g in
      let twice = open_app_twice f.stream o in
      (
        (
          ap (λ s. is_open (open_app s)) same ∙ open_app_keeps f.stream o,
          ap (λ s. good (open_app s)) same ∙ twice,
        ),
        ap (λ s. not (good (open_app s))) same ∙ ap not twice,
      )

  -- A stuck file that also says so.
  IsDead : FileOut files → Type 0
  IsDead f = IsStuck f × (f.reopen_error ≡ true)

  refresh-IsDead : (f : FileOut files) (now : ℕ) → IsDead f → IsDead (refresh files f now)
  unfolding refresh IsDead
  refresh-IsDead f now d = elim (Bool-cases (leb (add64 f.last_time 3) now)) [
    | inl e ↦
        subst IsDead (sym (if_true (record (reopen files f) { last_time = now }) f e))
          (reopen-IsStuck f d.0)
    | inr e ↦ subst IsDead (sym (if_false (record (reopen files f) { last_time = now }) f e)) d
  ]

  dead_log :
      (f : FileOut files) (now : ℕ) (text : Text)
      → IsDead (refresh files f now)
      → file_log files f now text ≡ (refresh files f now, none)
  unfolding file_log IsDead
  dead_log f now text d = if_true _ _ d.1

  skips_dead :
      (f : FileOut files) (now : ℕ) (text : Text) (es : List (ℕ × Text))
      → IsDead (refresh files f now)
      → (file_logs f ((now, text) ∷ es)).1 ≡ (file_logs (refresh files f now) es).1
  unfolding file_logs
  skips_dead f now text es d =
      ap (λ r. elim r.1 [ none ↦ (file_logs r.0 es).1 | some s ↦ s ∷ (file_logs r.0 es).1 ])
        (dead_log f now text d)

  nothing_to_write : (f : FileOut files) → (file_logs f []).1 ≡ []
  unfolding file_logs
  nothing_to_write f = refl

  dead_logs : (es : List (ℕ × Text)) (f : FileOut files) → IsDead f → (file_logs f es).1 ≡ []
  dead_logs [] f d = nothing_to_write f
  dead_logs ((now, text) ∷ es) f d =
      let d' = refresh-IsDead f now d in
      skips_dead f now text es d' ∙ dead_logs es (refresh files f now) d'

  due_refresh :
      (f : FileOut files) (now : ℕ)
      → add64 f.last_time 3 ≤ now
      → refresh files f now ≡ record (reopen files f) { last_time = now }
  unfolding refresh
  due_refresh f now due =
      if_true {b = leb (add64 f.last_time 3) now} (record (reopen files f) { last_time = now }) f
        (ground arith)

  -- Where a write has failed, so that the stream is open and not good, the next event that comes
  -- three seconds or more after the last opening finds the file not closed: open() fails, and
  -- neither that event nor any after it is written, whatever becomes of the disk.
  pub file_logs-stuck :
      (f : FileOut files) (now : ℕ) (text : Text) (es : List (ℕ × Text))
      → is_open f.stream ≡ true
      → good f.stream ≡ false
      → add64 f.last_time 3 ≤ now
      → (file_logs f ((now, text) ∷ es)).1 ≡ []
  unfolding IsDead
  file_logs-stuck f now text es o g due =
      let d : IsDead (refresh files f now) =
        subst IsDead (sym (due_refresh f now due)) (reopen-IsStuck f (o, g)) in
      skips_dead f now text es d ∙ dead_logs es (refresh files f now) d

  -- The texts written to a stream one after the other.
  abbrev pub written : State → List (ℕ × Text) → State
  written s [] = s
  written s ((now, text) ∷ es) = written (write s text) es

  abbrev pub texts : List (ℕ × Text) → List Text
  texts [] = []
  texts ((now, text) ∷ es) = text ∷ texts es

  -- Each event comes less than three seconds after the opening.
  abbrev pub Within : ℕ → List (ℕ × Text) → Type 0
  Within end [] = Unit {0}
  Within end ((now, text) ∷ es) = (now < end) × Within end es

  pub file_log_in_time :
      (f : FileOut files) (now : ℕ) (text : Text)
      → f.reopen_error ≡ false
      → now < add64 f.last_time 3
      → file_log files f now text ≡ (record f { stream = write f.stream text }, some text)
  unfolding file_log
  file_log_in_time f now text ok h =
      let late : leb (add64 f.last_time 3) now ≡ false = ground arith in
      let same : refresh files f now ≡ f = unfold refresh in if_false _ f late in
      ap
        (λ g.
          if g.reopen_error
          then (g, none)
          else (record g { stream = write g.stream text }, some text))
        same
      ∙ if_false _ _ ok

  logs_in_time :
      (f : FileOut files) (now : ℕ) (text : Text) (es : List (ℕ × Text))
      → f.reopen_error ≡ false
      → now < add64 f.last_time 3
      → let later = file_logs (record f { stream = write f.stream text }) es in
        file_logs f ((now, text) ∷ es) ≡ (later.0, text ∷ later.1)
  unfolding file_logs
  logs_in_time f now text es ok h =
      ap
        (λ r. (
          (file_logs r.0 es).0,
          elim r.1 [ none ↦ (file_logs r.0 es).1 | some s ↦ s ∷ (file_logs r.0 es).1 ],
        ))
        (file_log_in_time f now text ok h)

  -- A file that was opened is not opened again within three seconds: all events that come before
  -- are written, in order, to the one opening.
  pub file_logs-Within :
      (es : List (ℕ × Text)) (f : FileOut files)
      → f.reopen_error ≡ false
      → Within (add64 f.last_time 3) es
      → file_logs f es ≡ (record f { stream = written f.stream es }, texts es)
  file_logs-Within [] f ok w = unfold file_logs in refl
  file_logs-Within ((now, text) ∷ es) f ok w =
      let f' = record f { stream = write f.stream text } in
      let rest = file_logs-Within es f' ok w.1 in
      logs_in_time f now text es ok w.0 ∙ ap (λ r. (r.0, text ∷ r.1)) rest
