-- ===== src/IoManager/Context.antt =====
-- The invariant of IOManager, and what keeps it when one context is replaced.
use doroutine.Prelude.{
  pos, lt→ltb, exceeds, exceeds_lem, ℕ, zero, suc, ◌+◌, ◌*◌, ◌^◌, ◌≤◌, ◌<◌, ◌≡◌, refl, subst, ◌∙◌,
  inl, inr, Bool, true, false, Option, none, some, List, [], ◌∷◌, ◌==◌, ==_iff, length, length-set,
  get_elem?, set, if◌then◌else◌, Bool-cases, arith,
}
use doroutine.Epoll.{Epoll, Mask, is_none, Op, interest_after}
use doroutine.IoManager.{EventContext, reset_context, FdContext, Slot, IoManager, put_slot}

abbrev pub is_some {ℓ} : {A : Type ℓ} → Option A → Bool
is_some none = false
is_some (some a) = true

-- An event that is on has a scheduler to be queued on; the context of one that is off is reset.
abbrev pub IsWired : Bool → EventContext → Type 0
IsWired true e = is_some e.scheduler ≡ true
IsWired false e = e ≡ reset_context

pub record IsGood (fd : ℕ) (c : FdContext) : Type 0 where
  pub at_fd : c.fd ≡ fd
  pub read_wired : IsWired c.events.read c.read_context
  pub write_wired : IsWired c.events.write c.write_context

abbrev pub one_if : Bool → ℕ
one_if true = 1
one_if false = 0

-- How many events are on.
abbrev pub on_count : Mask → ℕ
on_count m = one_if m.read + one_if m.write

abbrev pub total : List FdContext → ℕ
total [] = 0
total (c ∷ cs) = on_count c.events + total cs

-- What epoll should be watching: the events that are on, and nothing if none is.
abbrev pub watched : Mask → Option Mask
watched m = if is_none m then none else some m

abbrev pub watched_at : List FdContext → ℕ → Option Mask
watched_at cs fd = elim (get_elem? cs fd) [ none ↦ none | some c ↦ watched c.events ]

module _ (epoll : Epoll) where
  open epoll use {State, interest, ctl, interest-ctl}

  pub record IsValid (m : IoManager epoll) : Type 0 where
    pub size : 32 ≤ length m.fd_contexts
    pub size_max : length m.fd_contexts < 2 ^ 31
    pub good : (fd : ℕ) (c : FdContext) → get_elem? m.fd_contexts fd ≡ some c → IsGood fd c
    -- m_pendingEventCount counts the events that are on.
    pub pending : m.pending_event_count ≡ total m.fd_contexts
    -- epoll watches just the events that are on.
    pub mirrored : (fd : ℕ) → interest m.epfd fd ≡ watched_at m.fd_contexts fd

pub total-set :
    (cs : List FdContext) (fd : ℕ) (c c' : FdContext)
    → get_elem? cs fd ≡ some c
    → total (set cs fd c') + on_count c.events ≡ total cs + on_count c'.events
total-set [] fd c c' h = cc
total-set (x ∷ xs) zero c c' h = ground arith
total-set (x ∷ xs) (suc fd) c c' h = omega (arith, total-set xs fd c c' h)

on_count-total :
    (cs : List FdContext) (fd : ℕ) (c : FdContext)
    → get_elem? cs fd ≡ some c
    → on_count c.events ≤ total cs
on_count-total [] fd c h = cc
on_count-total (x ∷ xs) zero c h = ground arith
on_count-total (x ∷ xs) (suc fd) c h = omega (arith, on_count-total xs fd c h)

on_count_max : (m : Mask) → on_count m ≤ 2
on_count_max m = ground arith

total_max : (cs : List FdContext) → total cs ≤ 2 * length cs
total_max [] = omega arith
total_max (c ∷ cs) = omega (arith, total_max cs, on_count_max c.events)

pub get-bound {ℓ} :
    {A : Type ℓ} (xs : List A) (i : ℕ) (x : A) → get_elem? xs i ≡ some x → i < length xs
get-bound [] i x h = cc
get-bound (y ∷ ys) zero x h = omega arith
get-bound (y ∷ ys) (suc i) x h = omega (arith, get-bound ys i x h)

-- A written slot, read anywhere.
get_elem?-set {ℓ} :
    {A : Type ℓ} (xs : List A) (i j : ℕ) (v : A)
    → i < length xs
    → get_elem? (set xs i v) j ≡ (if i == j then some v else get_elem? xs j)
get_elem?-set [] i j v h = elim h [ ]
get_elem?-set (x ∷ xs) zero zero v h = refl
get_elem?-set (x ∷ xs) zero (suc j) v h = ground arith
get_elem?-set (x ∷ xs) (suc i) zero v h = ground arith
get_elem?-set (x ∷ xs) (suc i) (suc j) v h = ground (arith, get_elem?-set xs i j v)

module _ (epoll : Epoll) (m : IoManager epoll) (fd : ℕ) (c : FdContext) (v : IsValid epoll m)
    (at : get_elem? m.fd_contexts fd ≡ some c) where
  open epoll use {State, interest, ctl, interest-ctl}

  -- The count does not overflow, and is not 0 while an event of the context is on.
  pub pending_room : (m.pending_event_count < 2 ^ 64) × (on_count c.events ≤ m.pending_event_count)
  pending_room = (
    omega (arith, v.pending, total_max m.fd_contexts, v.size_max),
    omega (arith, v.pending, on_count-total m.fd_contexts fd c at),
  )

  bound : fd < length m.fd_contexts
  bound = get-bound m.fd_contexts fd c at

  -- So the descriptor passes the test of the size.
  pub in_range : exceeds (length m.fd_contexts) (pos fd) ≡ true
  in_range = exceeds_lem (length m.fd_contexts) fd v.size_max ∙ lt→ltb _ _ bound

  set-IsGood :
      (s : Slot) (j : ℕ) (d : FdContext)
      → IsGood fd s.context
      → get_elem? (set m.fd_contexts fd s.context) j ≡ some d
      → IsGood j d
  set-IsGood s j d g h = elim (Bool-cases (fd == j)) [
    | inl e ↦
        (let here : s.context ≡ d =
            ground (arith, get_elem?-set m.fd_contexts fd j s.context bound) in
          subst (λ k. IsGood k d) ((==_iff fd j).0 e) (subst (IsGood fd) here g))
    | inr e ↦ v.good j d (ground (arith, get_elem?-set m.fd_contexts fd j s.context bound))
  ]

  mirrored_after :
      (op : Op) (asked : Mask) (ep : State) (s : Slot)
      → ctl m.epfd op fd asked ≡ some ep
      → interest_after op asked ≡ watched s.context.events
      → (j : ℕ) → interest ep j ≡ watched_at (set m.fd_contexts fd s.context) j
  mirrored_after op asked ep s told same j =
      interest-ctl m.epfd ep op fd j asked told
      ∙ ground (arith, same, v.mirrored j, get_elem?-set m.fd_contexts fd j s.context bound)

  -- Replacing the context keeps the invariant where the count changes by the events that are on,
  -- and epoll was told of them.
  pub put-IsValid :
      (op : Op) (asked : Mask) (ep : State) (s : Slot)
      → ctl m.epfd op fd asked ≡ some ep
      → interest_after op asked ≡ watched s.context.events
      → IsGood fd s.context
      → s.pending_event_count + on_count c.events
        ≡ m.pending_event_count + on_count s.context.events
      → IsValid epoll (put_slot epoll m fd ep s)
  put-IsValid op asked ep s told same g n = record {
    size = rw (length-set m.fd_contexts fd s.context) v.size;
    size_max = rw (length-set m.fd_contexts fd s.context) v.size_max;
    good = λ j d h. set-IsGood s j d g h;
    pending = omega (arith, v.pending, total-set m.fd_contexts fd c s.context at);
    mirrored = λ j. mirrored_after op asked ep s told same j;
  }
