-- ===== src/Log/Formatter/RoundTrip.antt =====
-- Patterns of format items, read back by init(), and the two ways in which a %d goes wrong.
use mathlib.Core.List.{append-nil}
use doroutine.Prelude.{
  ℕ, suc, ◌≤◌, ◌≡◌, refl, ap, ◌∙◌, ◌≢◌, true, false, List, [], ◌∷◌, ◌++◌, map, All, ◌==◌, arith,
}
use doroutine.Outcome.{done, undefined}
use doroutine.Log.Event.{Text}
use doroutine.Log.Formatter.{
  FormatItem, date_time, text, directive, new_scan, flush, scan, build_items, new_date_time,
  new_formatter,
}
use doroutine.Log.Formatter.Parse.{
  print_all, IsPlain, Apart, dates, with_date, to_piece, Ends, scan-append, scan_braces, scan-print,
}

build_items-pieces :
    (df : Text) (is : List FormatItem)
    → build_items df (map to_piece is) ≡ (map (with_date df) is, false)
unfolding build_items with_date
build_items-pieces df [] = refl
build_items-pieces df (text s ∷ is) = rw (build_items-pieces df is)
build_items-pieces df (date_time f ∷ is) = rw (build_items-pieces df is)
build_items-pieces df (i ∷ is) = rw (build_items-pieces df is)

-- init() reads back the pattern of any items whose texts are not empty and have no %, whose date
-- formats are not empty and have no closing brace, and of which no two texts meet: it reports no
-- error, and finds the items, but gives every date item all the date formats of the pattern, one
-- behind the other.
pub new_formatter-print :
    (is : List FormatItem)
    → All IsPlain is
    → Apart [] is
    → new_formatter (print_all is)
      ≡ done
          (record { pattern = print_all is; items = map (with_date (dates is)) is; error = false })
unfolding new_formatter Ends
new_formatter-print is h a =
    let (tmp', ps', e, p) = scan-print is [] [] [] h a in
    rw e (rw p (rw (build_items-pieces (dates is) is)))

unfoldable pub date_count : List FormatItem → ℕ
date_count [] = 0
date_count (date_time f ∷ is) = suc (date_count is)
date_count (_ ∷ is) = date_count is

no_dates :
    (df : Text) (is : List FormatItem)
    → date_count is ≡ 0
    → (dates is ≡ []) × (map (with_date df) is ≡ is)
unfolding date_count dates with_date
no_dates df [] h = (refl, refl)
no_dates df (date_time f ∷ is) h = absurd (omega arith)
no_dates df (i ∷ is) h = (rw ((no_dates df is h).0), rw ((no_dates df is h).1))

new_date_time-full : (f : Text) → f ≢ [] → new_date_time f ≡ date_time f
unfolding new_date_time
new_date_time-full [] h = absurd (h refl)
new_date_time-full (c ∷ cs) h = refl

one_date :
    (is : List FormatItem) → All IsPlain is → date_count is ≤ 1 → map (with_date (dates is)) is ≡ is
unfolding date_count dates with_date
one_date [] h c = refl
one_date (date_time f ∷ is) h c =
    let (d, m) = no_dates (f ++ dates is) is (omega arith) in
    rw (m, d, append-nil f, new_date_time-full f h.0.0)
one_date (i ∷ is) h c = rw (one_date is h.1 c)

-- init() reads back just the items whose pattern it is given, where the pattern has one date item
-- at most, its texts are not empty and have no %, its date format is not empty and has no closing
-- brace, and no two texts meet.
pub new_formatter-roundtrip :
    (is : List FormatItem)
    → All IsPlain is
    → Apart [] is
    → date_count is ≤ 1
    → new_formatter (print_all is)
      ≡ done (record { pattern = print_all is; items = is; error = false })
new_formatter-roundtrip is h a c =
    new_formatter-print is h a
    ∙ ap (λ r. done (record { pattern = print_all is; items = r; error = false })) (one_date is h c)

module _ (is : List FormatItem) (h : All IsPlain is) (a : Apart [] is) where
  -- A bare %d at the end.
  bare_date : new_formatter (print_all is ++ b'%' ∷ b'd' ∷ []) ≡ undefined
  unfolding new_formatter Ends scan
  bare_date =
      let (tmp', ps', e, p) = scan-print is [] [] [] h a in
      rw (scan-append (print_all is) (b'%' ∷ b'd' ∷ []) new_scan) (rw e refl)

  -- A %d whose brace is not closed.
  unclosed_date :
      (f : Text)
      → All (λ c. (c == b'}') ≡ false) f
      → new_formatter (print_all is ++ b'%' ∷ b'd' ∷ b'{' ∷ f)
        ≡ done
            (record { pattern = print_all is ++ b'%' ∷ b'd' ∷ b'{' ∷ f; items = []; error = true })
  unfolding new_formatter Ends scan
  unclosed_date f k =
      let (tmp', ps', e, p) = scan-print is [] [] [] h a in
      rw (scan-append (print_all is) (b'%' ∷ b'd' ∷ b'{' ∷ f) new_scan)
        (rw e (rw (scan_braces [] (flush ps' tmp' ++ directive b'd' ∷ []) f (dates is) k) refl))

  -- A pattern of items whose texts are not empty and have no %, whose date formats are not empty
  -- and have no closing brace, and of which no two texts meet, with a date behind it: a bare %d at
  -- the end makes init() read behind the end of the pattern; a %d whose brace is not closed is an
  -- error, and the formatter keeps no item.
  pub new_formatter_broken_date :
      (f : Text)
      → All (λ c. (c == b'}') ≡ false) f
      → (new_formatter (print_all is ++ b'%' ∷ b'd' ∷ []) ≡ undefined)
        × (new_formatter (print_all is ++ b'%' ∷ b'd' ∷ b'{' ∷ f)
            ≡ done (record {
              pattern = print_all is ++ b'%' ∷ b'd' ∷ b'{' ∷ f;
              items = [];
              error = true;
            }))
  new_formatter_broken_date f k = (bare_date, unclosed_date f k)
