-- ===== src/Log/Formatter/Parse.antt =====
-- What init() makes of a pattern that is put together from format items.
use mathlib.Core.List.{append_assoc, append-nil}
use doroutine.Prelude.{
  ℕ, ◌≡◌, refl, sym, ap, subst, ◌∙◌, ◌≢◌, false, List, [], ◌∷◌, ◌++◌, map, All, ◌==◌,
}
use doroutine.Log.Event.{Text}
use doroutine.Log.Formatter.{
  FormatItem, message, level_name, elapse_ms, logger_name, thread_id, doroutine_id, thread_name,
  date_time, file_name, line_number, new_line, text, tab, percent_sign, Piece, plain, directive,
  Mode, in_text, in_braces, Scan, flush, scan, new_date_time,
}

-- The character of a directive's item; a plain text has none.
abbrev pub letter : FormatItem → ℕ
letter message = b'm'
letter level_name = b'p'
letter elapse_ms = b'r'
letter logger_name = b'c'
letter thread_id = b't'
letter doroutine_id = b'F'
letter thread_name = b'N'
letter (date_time f) = b'd'
letter file_name = b'f'
letter line_number = b'l'
letter new_line = b'n'
letter (text s) = 0
letter tab = b'T'
letter percent_sign = b'%'

-- The pattern text of an item, as log.h documents it.
unfoldable pub print : FormatItem → Text
print (text s) = s
print (date_time f) = b'%' ∷ b'd' ∷ b'{' ∷ (f ++ b'}' ∷ [])
print i = b'%' ∷ letter i ∷ []

unfoldable pub print_all : List FormatItem → Text
unfolding print
print_all [] = []
print_all (i ∷ is) = print i ++ print_all is

-- A text is not empty and has no %; a date format is not empty and has no closing brace.
abbrev pub IsPlain : FormatItem → Type 0
IsPlain (text s) = (s ≢ []) × All (λ c. (c == b'%') ≡ false) s
IsPlain (date_time f) = (f ≢ []) × All (λ c. (c == b'}') ≡ false) f
IsPlain _ = Unit {0}

-- Two texts do not meet, where `before` is the text in front.
abbrev pub Apart : Text → List FormatItem → Type 0
Apart before [] = Unit {0}
Apart before (text s ∷ is) = (before ≡ []) × Apart s is
Apart before (_ ∷ is) = Apart [] is

-- All date formats of the pattern, in order, end up in the one `dateformat`.
unfoldable pub dates : List FormatItem → Text
dates [] = []
dates (date_time f ∷ is) = f ++ dates is
dates (_ ∷ is) = dates is

unfoldable pub with_date : Text → FormatItem → FormatItem
unfolding new_date_time
with_date df (date_time f) = new_date_time df
with_date df i = i

abbrev pub to_piece : FormatItem → Piece
to_piece (text s) = plain s
to_piece i = directive (letter i)

abbrev pub at : Mode → Text → Text → List Piece → Scan
at m tmp df ps = record { mode = m; tmp = tmp; dateformat = df; patterns = ps }

pub scan-append : (xs ys : Text) (st : Scan) → scan (xs ++ ys) st ≡ scan ys (scan xs st)
unfolding scan
scan-append [] ys st = refl
scan-append (x ∷ xs) ys st = scan-append xs ys _

module _ (df : Text) (ps : List Piece) where
  scan_text :
      (s tmp : Text)
      → All (λ c. (c == b'%') ≡ false) s
      → scan s (at in_text tmp df ps) ≡ at in_text (tmp ++ s) df ps
  unfolding scan
  scan_text [] tmp h = rw append-nil
  scan_text (c ∷ cs) tmp h = rw h.0 (
      scan_text cs (tmp ++ c ∷ []) h.1
      ∙ ap (λ t. at in_text t df ps) (append_assoc tmp (c ∷ []) cs))

module _ (tmp : Text) (ps : List Piece) where
  pub scan_braces :
      (s df : Text)
      → All (λ c. (c == b'}') ≡ false) s
      → scan s (at in_braces tmp df ps) ≡ at in_braces tmp (df ++ s) ps
  unfolding scan
  scan_braces [] df h = rw append-nil
  scan_braces (c ∷ cs) df h = rw h.0 (
      scan_braces cs (df ++ c ∷ []) h.1
      ∙ ap (λ t. at in_braces tmp t ps) (append_assoc df (c ∷ []) cs))

-- A directive closes the text in front of it.
module _ (tmp df : Text) (ps : List Piece) where
  scan_date :
      (f : Text)
      → All (λ c. (c == b'}') ≡ false) f
      → scan (print (date_time f)) (at in_text tmp df ps)
        ≡ at in_text [] (df ++ f) (flush ps tmp ++ directive b'd' ∷ [])
  unfolding print scan
  scan_date f h =
      rw (scan-append f (b'}' ∷ []) (at in_braces [] df (flush ps tmp ++ directive b'd' ∷ [])))
        (rw (scan_braces [] (flush ps tmp ++ directive b'd' ∷ []) f df h) refl)

-- The scan of one item that is no text.
abbrev Closes : FormatItem → Type 0
Closes i =
    (tmp df : Text) (ps : List Piece)
    → scan (print i) (at in_text tmp df ps)
      ≡ at in_text [] (df ++ dates (i ∷ [])) (flush ps tmp ++ to_piece i ∷ [])

abbrev IsText : FormatItem → Type 0
IsText (text s) = Unit {0}
IsText _ = ⊥

closes : (i : FormatItem) → ¬ IsText i → IsPlain i → Closes i
unfolding print scan dates
closes (text s) n h tmp df ps = absurd (n tt)
closes (date_time f) n h tmp df ps = scan_date tmp df ps f h.1 ∙ rw (append-nil f)
closes _ n h tmp df ps = rw append-nil

-- Where the scan of the items ends: still in text, with their date formats and pieces.
unfoldable pub Ends : Text → Text → List Piece → List FormatItem → Type 0
Ends tmp df ps is =
    (tmp' : Text) × (ps' : List Piece) × (scan (print_all is) (at in_text tmp df ps)
      ≡ at in_text tmp' (df ++ dates is) ps')
    × (flush ps' tmp' ≡ flush ps tmp ++ map to_piece is)

scan_item :
    (i : FormatItem) (is : List FormatItem) (tmp df : Text) (ps : List Piece)
    → Closes i
    → dates (i ∷ is) ≡ dates (i ∷ []) ++ dates is
    → Ends [] (df ++ dates (i ∷ [])) (flush ps tmp ++ to_piece i ∷ []) is
    → Ends tmp df ps (i ∷ is)
unfolding Ends print_all
scan_item i is tmp df ps c d (tmp', ps', e, p) = (
  tmp',
  ps',
  scan-append (print i) (print_all is) _
      ∙ rw (c tmp df ps)
          (e ∙ ap (λ t. at in_text tmp' t ps') (append_assoc df _ _ ∙ ap (◌++◌ df) (sym d))),
  p ∙ append_assoc (flush ps tmp) (to_piece i ∷ []) (map to_piece is),
)

flush_full : (ps : List Piece) (s : Text) → s ≢ [] → flush ps s ≡ ps ++ plain s ∷ []
flush_full ps [] h = absurd (h refl)
flush_full ps (c ∷ cs) h = refl

scan_text_item :
    (s : Text) (is : List FormatItem) (df : Text) (ps : List Piece)
    → IsPlain (text s)
    → Ends s df ps is
    → Ends [] df ps (text s ∷ is)
unfolding Ends print_all dates print
scan_text_item s is df ps h (tmp', ps', e, p) = (
  tmp',
  ps',
  scan-append s (print_all is) (at in_text [] df ps) ∙ rw (scan_text df ps s [] h.1) e,
  p
      ∙ ap (λ t. t ++ map to_piece is) (flush_full ps s h.0)
      ∙ append_assoc ps (plain s ∷ []) (map to_piece is),
)

pub scan-print :
    (is : List FormatItem) (tmp df : Text) (ps : List Piece)
    → All IsPlain is
    → Apart tmp is
    → Ends tmp df ps is
unfolding dates
scan-print [] tmp df ps h a = unfold Ends print_all scan in (tmp, ps, rw append-nil, rw append-nil)
scan-print (text s ∷ is) tmp df ps h a =
    subst (λ t. Ends t df ps (text s ∷ is)) (sym a.0)
      (scan_text_item s is df ps h.0 (scan-print is s df ps h.1 a.1))
scan-print (date_time f ∷ is) tmp df ps h a =
    scan_item (date_time f) is tmp df ps (closes (date_time f) (λ n. n) h.0)
      (unfold dates in rw (append-nil f)) (scan-print is [] _ _ h.1 a)
scan-print (i ∷ is) tmp df ps h a =
    scan_item _ is tmp df ps (closes _ (λ n. n) h.0) refl (scan-print is [] _ _ h.1 a)
