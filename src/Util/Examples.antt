-- ===== src/Util/Examples.antt =====
-- A system that keeps one name, of 15 bytes at most, and two readings of the clock.
use doroutine.Prelude.{◌≡◌, refl, [], length, leb, if◌then◌else◌, if_true, arith}
use doroutine.Log.Event.{Text, codes}
use doroutine.Util.{substr, c_str, ThreadNames, get_thread_name, set_thread_name}

abbrev one_name : ThreadNames
one_name = record {
  State = Text;
  setname = λ k name. if leb (length name) 15 then name else k;
  getname = λ k. k;
  keeps = λ k name full short. if_true {b = leb (length name) 15} name k (ground (arith, short));
}

abbrev brand_new : Text
brand_new = codes "brand_new_thread"

-- The name that the test gives its thread is one byte too long.
truncated :
    get_thread_name one_name (set_thread_name one_name [] brand_new) ≡ codes "brand_new_threa"
unfolding get_thread_name set_thread_name c_str substr
truncated = refl
