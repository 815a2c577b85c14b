-- ===== src/Log/Logger/Writes.antt =====
-- What a logger writes.
use mathlib.Core.List.{append_assoc, append-nil}
use doroutine.Prelude.{
  ℕ, ◌≤◌, ◌<◌, ◌≡◌, ◌∙◌, refl, sym, ap, subst, inl, inr, true, false, none, some, List, [], ◌∷◌,
  ◌++◌, map, All, leb, ◌==◌, ==_iff, if_true, if_false, update, add64, Bool-cases, arith,
}
use doroutine.Log.Level.{Level, value}
use doroutine.Log.Event.{Text, LogEvent}
use doroutine.Log.Stream.{OfStream}
use doroutine.Log.Appender.{Output, to_stdout, to_file, text_of, log_out, append_event}
use doroutine.Log.Appender.Reopen.{file_log_in_time}
use doroutine.Log.Logger.{Logger, Site, new_event, World, send, log_all, log, log_level}

module _ (files : OfStream) (strftime : Text → ℕ → Text) (e : LogEvent) where
  -- The appender writes the event without opening its file again.
  abbrev pub IsReadyOut : Output files → Type 0
  IsReadyOut to_stdout = Unit {0}
  IsReadyOut (to_file f) = (f.reopen_error ≡ false) × (e.time < add64 f.last_time 3)

  log_out_ready :
      (o : Output files) (text : Text)
      → IsReadyOut o
      → (o' : Output files) × (log_out files strftime o e.time text ≡ (o', some text))
        × IsReadyOut o'
  unfolding log_out
  log_out_ready to_stdout text r = (to_stdout, refl, tt)
  log_out_ready (to_file f) text r = (
    to_file (record f { stream = OfStream.write files f.stream text }),
    ap (λ q. (to_file q.0, q.1)) (file_log_in_time files f e.time text r.0 r.1),
    r,
  )

  abbrev pub IsReady : World files → ℕ → Type 0
  IsReady w a = IsReadyOut (w.appenders a).output

  -- Every appender stays as ready as it was, and formats as it did.
  abbrev Keeps : World files → World files → Type 0
  Keeps w w' =
      (b : ℕ)
      → (IsReady w b → IsReady w' b)
        × (text_of files strftime (w'.appenders b) e ≡ text_of files strftime (w.appenders b) e)

  module _ (w : World files) (a : ℕ) (o : Output files) (ready : IsReadyOut o) where
    -- The world once the appender has streamed the event.
    abbrev after_send : World files
    after_send = record {
      appenders = update w.appenders a (record (w.appenders a) { output = o });
      sent = w.sent ++ (a, text_of files strftime (w.appenders a) e) ∷ [];
    }

    after_send-Keeps : Keeps w after_send
    after_send-Keeps b = elim (Bool-cases (a == b)) [
      | inl h ↦
          (let same : w.appenders a ≡ w.appenders b = ap w.appenders ((==_iff a b).0 h) in
            let here : after_send.appenders b ≡ record (w.appenders a) { output = o } =
              if_true _ _ h in
            (
              λ r. subst (λ p. IsReadyOut p.output) (sym here) ready,
              ap (λ p. text_of files strftime p e) here ∙ ap (λ p. text_of files strftime p e) same,
            ))
      | inr h ↦
          (let there : after_send.appenders b ≡ w.appenders b = if_false _ _ h in
            (
              λ r. subst (λ p. IsReadyOut p.output) (sym there) r,
              ap (λ p. text_of files strftime p e) there,
            ))
    ]

  send_ready :
      (w : World files) (a : ℕ)
      → IsReady w a
      → (w' : World files) × (send files strftime w a e ≡ w')
        × (w'.sent ≡ w.sent ++ (a, text_of files strftime (w.appenders a) e) ∷ [])
        × Keeps w w'
  unfolding send append_event
  send_ready w a r =
      let (o, run, ready) =
        log_out_ready (w.appenders a).output (text_of files strftime (w.appenders a) e) r in
      (
        after_send w a o ready,
        ap
            (λ q. record {
              appenders = update w.appenders a (record (w.appenders a) { output = q.0 });
              sent = elim q.1 [ none ↦ w.sent | some s ↦ w.sent ++ (a, s) ∷ [] ];
            })
            run,
        refl,
        after_send-Keeps w a o ready,
      )

  -- The texts of the event, by each of the appenders.
  abbrev pub lines : World files → List ℕ → List (ℕ × Text)
  lines w bs = map (λ a. (a, text_of files strftime (w.appenders a) e)) bs

  lines-Keeps : (w w' : World files) (bs : List ℕ) → Keeps w w' → lines w' bs ≡ lines w bs
  lines-Keeps w w' [] k = refl
  lines-Keeps w w' (b ∷ bs) k =
      ap (λ t. (b, t) ∷ lines w' bs) (k b).1
      ∙ ap (◌∷◌ (b, text_of files strftime (w.appenders b) e)) (lines-Keeps w w' bs k)

  All-Keeps :
      (w w' : World files) (bs : List ℕ) → Keeps w w' → All (IsReady w) bs → All (IsReady w') bs
  All-Keeps w w' [] k h = tt
  All-Keeps w w' (b ∷ bs) k h = ((k b).0 h.0, All-Keeps w w' bs k h.1)

  log_all_ready :
      (bs : List ℕ) (w : World files)
      → All (IsReady w) bs
      → (log_all files strftime w bs e).sent ≡ w.sent ++ lines w bs
  unfolding log_all
  log_all_ready [] w h = sym (append-nil w.sent)
  log_all_ready (b ∷ bs) w h =
      let (w', run, sent, k) = send_ready w b h.0 in
      ap (λ u. (log_all files strftime u bs e).sent) run
      ∙ log_all_ready bs w' (All-Keeps w w' bs k h.1)
      ∙ ap (λ l. w'.sent ++ l) (lines-Keeps w w' bs k)
      ∙ ap (λ l. l ++ lines w bs) sent
      ∙ append_assoc w.sent ((b, text_of files strftime (w.appenders b) e) ∷ []) (lines w bs)

-- SYLAR_LOG_LEVEL at a level that is less severe than the logger's does nothing. At any other level
-- each appender of the logger streams the event once, in order and by its own formatter, where the
-- appender is one on stdout, or one on a file that was opened without an error less than three
-- seconds before.
pub log_level-Writes :
    (files : OfStream) (strftime : Text → ℕ → Text) (w : World files) (l : Logger) (level : Level)
    (s : Site) (content : Text)
    → let e = new_event l level s content in
      let w' = log_level files strftime w l level s content in
      (value l.level < value level → w' ≡ w)
      × (value level ≤ value l.level
          → All (IsReady files strftime e w) l.appenders
          → w'.sent ≡ w.sent ++ lines files strftime e w l.appenders)
unfolding log_level log new_event
log_level-Writes files strftime w l level s content =
    let e = new_event l level s content in
    let passes = leb (value level) (value l.level) in
    let all = log_all files strftime w l.appenders e in
    (
      λ h. if_false {b = passes} (log files strftime w l e) w (ground arith),
      λ h r.
          let pass : passes ≡ true = ground arith in
          ap (λ u. u.sent)
            (if_true {b = passes} (log files strftime w l e) w pass
              ∙ if_true {b = passes} all w pass)
          ∙ log_all_ready files strftime e l.appenders w r,
    )
