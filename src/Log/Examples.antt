-- ===== src/Log/Examples.antt =====
-- The log theorems at concrete patterns.
use doroutine.Prelude.{◌≡◌, refl, false, List, [], ◌∷◌, map, All, ℕ_discrete}
use doroutine.Outcome.{done}
use doroutine.Log.Event.{Text}
use doroutine.Log.Formatter.{FormatItem, message, date_time, level_name, text, tab, new_formatter}
use doroutine.Log.Formatter.Parse.{print_all, dates, with_date, IsPlain}
use doroutine.Log.Formatter.RoundTrip.{new_formatter-print}

abbrev opening : Text
opening = b'[' ∷ []

-- `[%p%T%m`, and two dates around it.
abbrev plain_items : List FormatItem
plain_items = text opening ∷ level_name ∷ tab ∷ message ∷ []

abbrev two_dates : List FormatItem
two_dates =
    date_time (b'%' ∷ b'Y' ∷ []) ∷ text opening ∷ date_time (b'%' ∷ b'H' ∷ []) ∷ message ∷ []

new_formatter-print_example :
    new_formatter (print_all two_dates)
    ≡ done (record {
      pattern = print_all two_dates;
      items = map (with_date (dates two_dates)) two_dates;
      error = false;
    })
unfolding ℕ_discrete
new_formatter-print_example =
    new_formatter-print two_dates
      (
        ((λ e. cc), (refl, (refl, tt))),
        (((λ e. cc), (refl, tt)), (((λ e. cc), (refl, (refl, tt))), (tt, tt))),
      )
      (refl, tt)

abbrev one_date_items : List FormatItem
one_date_items = date_time (b'%' ∷ b'Y' ∷ []) ∷ text opening ∷ level_name ∷ []

plain_items-IsPlain : All IsPlain plain_items
unfolding ℕ_discrete
plain_items-IsPlain = (((λ e. cc), (refl, tt)), (tt, (tt, (tt, tt))))
