-- ===== src/Log/Stream.antt =====
-- std::ofstream, of one file name: what FileLogAppender asks of it, and what is documented.
use doroutine.Prelude.{Bool, true, false, ◌≡◌}
use doroutine.Log.Event.{Text}

pub record OfStream : Type 1 where
  pub State : Type 0
  -- A stream that is constructed and not opened yet.
  pub fresh : State
  -- The conversion to bool, which is !fail(); and is_open().
  pub good : State → Bool
  pub is_open : State → Bool
  pub open_app : State → State
  pub close : State → State
  pub write : State → Text → State
  -- open() fails on a stream that is open already, and leaves it open.
  pub open_app_twice : (s : State) → is_open s ≡ true → good (open_app s) ≡ false
  pub open_app_keeps : (s : State) → is_open s ≡ true → is_open (open_app s) ≡ true
  -- Where it succeeds the stream is good and open.
  pub open_app_good : (s : State) → good (open_app s) ≡ true → is_open (open_app s) ≡ true
  pub is_open-close : (s : State) → is_open (close s) ≡ false
  pub is_open-write : (s : State) (text : Text) → is_open (write s text) ≡ is_open s
