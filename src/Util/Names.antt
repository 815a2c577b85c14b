-- ===== src/Util/Names.antt =====
-- The name of a thread, set and read back.
use doroutine.Prelude.{ℕ, zero, suc, ◌≤◌, ◌≡◌, ◌∙◌, refl, ap, true, [], ◌∷◌, length, arith}
use doroutine.Log.Event.{Text}
use doroutine.Util.{substr, c_str, has_no_nul, ThreadNames, get_thread_name, set_thread_name}

c_str-has_no_nul : (name : Text) → has_no_nul (c_str name) ≡ true
unfolding c_str
c_str-has_no_nul [] = refl
c_str-has_no_nul (c ∷ cs) = ground (arith, c_str-has_no_nul cs)

c_str-length : (name : Text) → length (c_str name) ≤ length name
unfolding c_str
c_str-length [] = omega arith
c_str-length (c ∷ cs) = ground (arith, c_str-length cs)

c_str_lem : (name : Text) → has_no_nul name ≡ true → c_str name ≡ name
unfolding c_str
c_str_lem [] h = refl
c_str_lem (c ∷ cs) h = ground (arith, c_str_lem cs)

substr-length : (name : Text) (n : ℕ) → length (substr name n) ≤ n
unfolding substr
substr-length [] n = omega arith
substr-length (c ∷ cs) zero = omega arith
substr-length (c ∷ cs) (suc n) = omega (arith, substr-length cs n)

substr_lem : (name : Text) (n : ℕ) → length name ≤ n → substr name n ≡ name
unfolding substr
substr_lem [] n h = refl
substr_lem (c ∷ cs) zero h = absurd (omega arith)
substr_lem (c ∷ cs) (suc n) h = ap (◌∷◌ c) (substr_lem cs n (omega arith))

-- A thread whose name is set reads back the first 15 bytes of it, up to a NUL among them; so a name
-- of 15 bytes at most and without a NUL comes back as it is.
pub get_thread_name-set_thread_name :
    (names : ThreadNames) (k : ThreadNames.State names) (name : Text)
    → (get_thread_name names (set_thread_name names k name) ≡ c_str (substr name 15))
      × (has_no_nul name ≡ true
          → length name ≤ 15
          → get_thread_name names (set_thread_name names k name) ≡ name)
unfolding get_thread_name set_thread_name
get_thread_name-set_thread_name names k name =
    let short = substr name 15 in
    let full = c_str-has_no_nul short in
    let e : c_str (names.getname (names.setname k (c_str short))) ≡ c_str short =
      ap c_str (
        names.keeps k (c_str short) full (omega (arith, c_str-length short, substr-length name 15)))
      ∙ c_str_lem (c_str short) full in
    (e, λ h l. e ∙ ap c_str (substr_lem name 15 l) ∙ c_str_lem name h)
