-- ===== src/Hook/Commands.antt =====
-- The commands of fcntl(): what each of them hands to the original call. They and their arguments are
-- words; an argument that is a pointer is its address.
use doroutine.Prelude.{
  ◌%◌, ◌^◌, ℕ, ◌≡◌, ◌∙◌, refl, sym, ap, inl, inr, Bool, true, false, not, ◌||◌, Option, none, some,
  List, [], ◌∷◌, contains, ◌==◌, if◌then◌else◌, Bool-cases, pos, negsuc, ℤ, arith,
}
use doroutine.Outcome.{Outcome, done, ◌>>=◌}
use doroutine.Kernel.{Kernel, nonblock}
use doroutine.Fd.{FdCtx, FdManager, slot, get}
use doroutine.Fd.Table.{IsValid, get_present}
use doroutine.Fd.Write.{get_held}
use doroutine.Hook.Flags.{setfl_runs, fcntl_setfl-roundtrip}
use doroutine.Hook.{is_hooked, with_mode, modify_at, setfl_on, fcntl_setfl, fcntl_getfl}

abbrev pub f_getfl : ℕ
f_getfl = 3

abbrev pub f_setfl : ℕ
f_setfl = 4

-- F_DUPFD, F_DUPFD_CLOEXEC, F_SETFD, F_SETOWN, F_SETSIG, F_SETLEASE, F_NOTIFY and F_SETPIPE_SZ.
abbrev pub with_int : List ℕ
with_int = 0 ∷ 1030 ∷ 2 ∷ 8 ∷ 10 ∷ 1024 ∷ 1026 ∷ 1031 ∷ []

-- F_GETFD, F_GETOWN, F_GETSIG, F_GETLEASE and F_GETPIPE_SZ.
abbrev pub without : List ℕ
without = 1 ∷ 9 ∷ 11 ∷ 1025 ∷ 1032 ∷ []

-- F_SETLK, F_SETLKW and F_GETLK.
abbrev pub with_flock : List ℕ
with_flock = 6 ∷ 7 ∷ 5 ∷ []

-- F_GETOWN_EX and F_SETOWN_EX.
abbrev pub with_owner : List ℕ
with_owner = 16 ∷ 15 ∷ []

-- The argument of the call of fcntl_f in the branches that only pass the command on; those without
-- `va_arg`, and the default, give none. An int is the low half of a word.
pub passed_argument : ℕ → ℕ → Option ℕ
passed_argument cmd arg =
    if contains cmd with_int
    then some (arg % 2 ^ 32)
    else (if contains cmd with_flock || contains cmd with_owner then some arg else none)

-- `arg | O_NONBLOCK` or `arg & ~O_NONBLOCK` of an int; `-1 - n` has the bits that `n` has not.
unfoldable pub int_mode : Bool → ℤ → ℤ
int_mode b (pos n) = pos (with_mode b n)
int_mode b (negsuc n) = negsuc (with_mode (not b) n)

-- The original fcntl, with its command and its argument, if it is given one.
pub record Fcntl (kernel : Kernel) : Type 0 where
  pub fcntl_f : kernel.State → ℤ → ℕ → Option ℕ → kernel.State × ℤ
  -- F_SETFL sets the flags; F_GETFL gives them, and changes nothing.
  pub sets :
      (k : kernel.State) (fd : ℤ) (flags : ℕ)
      → (fcntl_f k fd f_setfl (some flags)).0 ≡ kernel.setfl k fd flags
  pub gets : (k : kernel.State) (fd : ℤ) → fcntl_f k fd f_getfl none ≡ (k, pos (kernel.getfl k fd))

-- The table and the flags that F_SETFL goes on with.
abbrev pub setfl_flags : FdManager → ℤ → ℕ → Option FdCtx → FdManager × ℕ
setfl_flags m fd arg none = (m, arg)
setfl_flags m fd arg (some c) =
    if is_hooked c
    then (
      modify_at m fd (λ c. record c { user_no_block = nonblock arg }),
      with_mode c.sys_no_block arg,
    )
    else (m, arg)

abbrev pub getfl_answer : Option FdCtx → ℤ → ℤ
getfl_answer none arg = arg
getfl_answer (some c) arg = if is_hooked c then int_mode c.user_no_block arg else arg

module _ (kernel : Kernel) (original : Fcntl kernel) where
  open kernel use {State, getfl}
  open original use {fcntl_f, sets, gets}

  abbrev pub call : FdManager → State → ℤ → ℕ → Option ℕ → FdManager × State × ℤ
  call m k fd cmd arg = let (k', r) = fcntl_f k fd cmd arg in (m, k', r)

  -- fcntl() with F_SETFL, and with F_GETFL.
  pub set_flags : FdManager → State → ℤ → ℕ → Outcome (FdManager × State × ℤ)
  set_flags m k fd arg = get kernel m k fd false >>= λ r.
      let (m', flags) = setfl_flags m fd arg r.2 in done (call m' k fd f_setfl (some flags))

  pub get_flags : FdManager → State → ℤ → Outcome (FdManager × State × ℤ)
  get_flags m k fd =
      let (k', n) = fcntl_f k fd f_getfl none in
      get kernel m k' fd false >>= λ r. done (m, k', getfl_answer r.2 n)

  -- fcntl()
  pub fcntl : FdManager → State → ℤ → ℕ → ℕ → Outcome (FdManager × State × ℤ)
  unfolding set_flags get_flags passed_argument
  fcntl m k fd cmd arg =
      if cmd == f_setfl
      then set_flags m k fd (arg % 2 ^ 32)
      else (if cmd == f_getfl
          then get_flags m k fd
          else done (call m k fd cmd (passed_argument cmd arg)))

  set_runs :
      (m : FdManager) (k : State) (fd arg : ℕ) (c : FdCtx)
      → slot m fd ≡ some c
      → IsValid m
      → set_flags m k (pos fd) arg
        ≡ done (
            let (m', flags) = setfl_flags m (pos fd) arg (some c) in
            call m' k (pos fd) f_setfl (some flags))
  unfolding set_flags
  set_runs m k fd arg c at v = rw (get_held m fd c at v kernel k) refl

  set_splits :
      (m : FdManager) (k : State) (fd arg : ℕ) (c : FdCtx)
      → let (m', flags) : FdManager × ℕ = setfl_flags m (pos fd) arg (some c) in
        setfl_on kernel m k (pos fd) arg (some c) ≡ (m', kernel.setfl k (pos fd) flags)
  set_splits m k fd arg c = elim (Bool-cases (is_hooked c)) [
    | inl e ↦ rw e refl
    | inr e ↦ rw e refl
  ]

  on_set :
      (m : FdManager) (k : State) (fd arg : ℕ) (c : FdCtx)
      → slot m fd ≡ some c
      → IsValid m
      → (m' : FdManager) × (k' : State) × (n : ℤ) × (set_flags m k (pos fd) arg ≡ done (m', k', n))
        × (fcntl_setfl kernel m k (pos fd) arg ≡ done (m', k'))
  on_set m k fd arg c at v =
      let (m', flags) : FdManager × ℕ = setfl_flags m (pos fd) arg (some c) in
      let (k', n) : State × ℤ = fcntl_f k (pos fd) f_setfl (some flags) in
      (
        m',
        k',
        n,
        set_runs m k fd arg c at v,
        setfl_runs kernel m k fd arg c at v
            ∙ ap done (set_splits m k fd arg c ∙ ap (λ k. (m', k)) (sym (sets k (pos fd) flags))),
      )

  -- F_GETFL, whatever the table has of the descriptor.
  get_any :
      (m : FdManager) (k : State) (fd : ℕ)
      → IsValid m
      → get kernel m k (pos fd) false ≡ done (m, k, slot m fd)
  get_any m k fd v = get_present kernel m k fd false v.size_max (ground arith)

  -- The flags that F_GETFL gives of those of the kernel.
  abbrev shown : Option FdCtx → ℕ → ℕ
  shown none n = n
  shown (some c) n = if is_hooked c then with_mode c.user_no_block n else n

  answers_shown : (o : Option FdCtx) (n : ℕ) → getfl_answer o (pos n) ≡ pos (shown o n)
  unfolding int_mode
  answers_shown none n = refl
  answers_shown (some c) n = ground arith

  getfl_shown :
      (o : Option FdCtx) (n : ℕ)
      → (elim o [ none ↦ n | some c ↦ if is_hooked c then with_mode c.user_no_block n else n ])
        ≡ shown o n
  getfl_shown none n = refl
  getfl_shown (some c) n = refl

  on_get :
      (m : FdManager) (k : State) (fd flags : ℕ)
      → IsValid m
      → fcntl_getfl kernel m k (pos fd) ≡ done flags
      → get_flags m k (pos fd) ≡ done (m, k, pos flags)
  unfolding get_flags fcntl_getfl
  on_get m k fd flags v e =
      let here = get_any m k fd v in
      let gives : fcntl_getfl kernel m k (pos fd) ≡ done (shown (slot m fd) (getfl k (pos fd))) =
        rw here (ap done (getfl_shown (slot m fd) (getfl k (pos fd)))) in
      let same : shown (slot m fd) (getfl k (pos fd)) ≡ flags = cc in
      rw (gets k (pos fd)) (
        rw here
          (ap (λ n. done (m, k, n)) (answers_shown (slot m fd) (getfl k (pos fd)) ∙ ap pos same)))

  low_nonblock : (arg : ℕ) → nonblock (arg % 2 ^ 32) ≡ nonblock arg
  low_nonblock arg = ap (λ b. b == 1) (omega arith)

  -- fcntl() on a descriptor in a valid table. After F_SETFL the table is valid, the kernel has a socket
  -- non-blocking whatever was asked for, and F_GETFL gives the mode that was asked for and changes
  -- nothing. F_DUPFD, F_SETFD, F_SETOWN, F_SETSIG, F_SETLEASE, F_NOTIFY, F_DUPFD_CLOEXEC and
  -- F_SETPIPE_SZ, by their numbers in Linux, leave the table alone and hand the low 32 bits of the
  -- argument on to the original call; F_GETLK, F_SETLK, F_SETLKW, F_SETOWN_EX and F_GETOWN_EX do so
  -- with the whole argument. Any command but these and F_GETFL and F_SETFL is passed on without its
  -- argument, F_OFD_GETLK, F_OFD_SETLK, F_OFD_SETLKW, F_ADD_SEALS and F_SET_RW_HINT, which need
  -- theirs, among them.
  pub fcntl-Returns :
      (m : FdManager) (k : State) (fd arg : ℕ) (c : FdCtx)
      → IsValid m
      → slot m fd ≡ some c
      → ((m' : FdManager) × (k' : State) × (n : ℤ) × (flags : ℕ) × (fcntl m k (pos fd) 4 arg
            ≡ done (m', k', n))
          × IsValid m'
          × (c.is_socket ≡ true → nonblock (getfl k' (pos fd)) ≡ true)
          × ((any : ℕ) → fcntl m' k' (pos fd) 3 any ≡ done (m', k', pos flags))
          × (nonblock flags ≡ nonblock arg))
        × ((cmd : ℕ)
            → contains cmd (0 ∷ 2 ∷ 8 ∷ 10 ∷ 1024 ∷ 1026 ∷ 1030 ∷ 1031 ∷ []) ≡ true
            → fcntl m k (pos fd) cmd arg
              ≡ (let (k', n) = fcntl_f k (pos fd) cmd (some (arg % 2 ^ 32)) in done (m, k', n)))
        × ((cmd : ℕ)
            → contains cmd (5 ∷ 6 ∷ 7 ∷ 15 ∷ 16 ∷ []) ≡ true
            → fcntl m k (pos fd) cmd arg
              ≡ (let (k', n) = fcntl_f k (pos fd) cmd (some arg) in done (m, k', n)))
        × ((cmd : ℕ)
            → contains cmd
                (0 ∷ 2 ∷ 3 ∷ 4 ∷ 5 ∷ 6 ∷ 7 ∷ 8 ∷ 10 ∷ 15 ∷ 16 ∷ 1024 ∷ 1026 ∷ 1030 ∷ 1031 ∷ [])
              ≡ false
            → fcntl m k (pos fd) cmd arg
              ≡ (let (k', n) = fcntl_f k (pos fd) cmd none in done (m, k', n)))
        × ((cmd : ℕ)
            → contains cmd (36 ∷ 37 ∷ 38 ∷ 1033 ∷ 1036 ∷ []) ≡ true
            → (arg' : ℕ) → fcntl m k (pos fd) cmd arg ≡ fcntl m k (pos fd) cmd arg')
  unfolding fcntl passed_argument
  fcntl-Returns m k fd arg c v at =
      let (m', k', n, e, e') = on_set m k fd (arg % 2 ^ 32) c at v in
      let (m1, k1, flags, f, v1, quiet, g, same) =
        fcntl_setfl-roundtrip kernel m k fd (arg % 2 ^ 32) c v at in
      let replies : set_flags m k (pos fd) (arg % 2 ^ 32) ≡ done (m1, k1, n) = cc in
      (
        (
          m1,
          k1,
          n,
          flags,
          replies,
          v1,
          quiet,
          λ any. on_get m1 k1 fd flags v1 g,
          same ∙ low_nonblock arg,
        ),
        λ cmd h. ground (arith, h),
        λ cmd h. ground (arith, h),
        λ cmd h. ground (arith, h),
        λ cmd h arg'. ground (arith, h),
      )
