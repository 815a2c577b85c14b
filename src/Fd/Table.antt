-- ===== src/Fd/Table.antt =====
-- FdManager as a map from descriptors to contexts.
use doroutine.Prelude.{
  exceeds_lem, ◌^◌, ℕ, zero, suc, ◌*◌, ◌/◌, ◌≤◌, ◌<◌, ◌≡◌, ◌∙◌, refl, sym, ap, inl, inr, Bool, true,
  false, ◌||◌, not, Option, none, some, List, [], ◌∷◌, ℤ, pos, lt→ltb, leb, ◌==◌, length,
  length-set, get_elem?, get_elem?_ge, set, replicate, if◌then◌else◌, if_true, if_false, subst,
  Bool-cases, arith,
}
use doroutine.Outcome.{done}
use doroutine.Kernel.{Kernel}
use doroutine.Fd.{
  FdCtx, FdManager, new_fd_manager, init_mode, new_fd_ctx, grown, resize, or_null, slot, is_some,
  create, get,
}

-- What every context in the table satisfies. `is_closed` is never set.
pub record IsGoodCtx (c : FdCtx) : Type 0 where
  pub never_closed : c.is_closed ≡ false
  pub sys_of_socket : c.sys_no_block ≡ c.is_socket
  pub init_of_socket : c.is_socket ≡ true → c.is_init ≡ true

pub record IsValid (m : FdManager) : Type 0 where
  pub size : 64 ≤ length m.fds
  pub size_max : length m.fds < 2 ^ 31
  pub good : (fd : ℕ) (c : FdCtx) → slot m fd ≡ some c → IsGoodCtx c

module _ {ℓ} {A : Type ℓ} where
  pub length-resize : (n : ℕ) (xs : List (Option A)) → length (resize n xs) ≡ n
  unfolding resize
  length-resize zero xs = refl
  length-resize (suc n) [] = ap suc (length-resize n [])
  length-resize (suc n) (x ∷ xs) = ap suc (length-resize n xs)

  resize_nulls : (n i : ℕ) → or_null (get_elem? (resize {A = A} n []) i) ≡ none
  unfolding resize
  resize_nulls zero i = refl
  resize_nulls (suc n) zero = refl
  resize_nulls (suc n) (suc i) = resize_nulls n i

  -- A longer vector has the old pointers and null ones behind them.
  pub slot-resize :
      (n : ℕ) (xs : List (Option A)) (i : ℕ)
      → length xs ≤ n
      → or_null (get_elem? (resize n xs) i) ≡ or_null (get_elem? xs i)
  unfolding resize
  slot-resize zero [] i h = refl
  slot-resize zero (x ∷ xs) i h = absurd (omega arith)
  slot-resize (suc n) [] i h = resize_nulls (suc n) i
  slot-resize (suc n) (x ∷ xs) zero h = refl
  slot-resize (suc n) (x ∷ xs) (suc i) h = slot-resize n xs i (omega arith)

-- A written slot, in the form that has no side condition but the bound.
pub slot-set :
    (xs : List (Option FdCtx)) (i j : ℕ) (v : Option FdCtx)
    → i < length xs
    → or_null (get_elem? (set xs i v) j) ≡ (if i == j then v else or_null (get_elem? xs j))
slot-set [] i j v h = elim h [ ]
slot-set (x ∷ xs) zero zero v h = refl
slot-set (x ∷ xs) zero (suc j) v h = ground arith
slot-set (x ∷ xs) (suc i) zero v h = ground arith
slot-set (x ∷ xs) (suc i) (suc j) v h = ground (arith, slot-set xs i j v)

pub slot_bound : (m : FdManager) (fd : ℕ) → length m.fds ≤ fd → slot m fd ≡ none
slot_bound m fd h = ground (arith, get_elem?_ge m.fds fd)

pub slots_null : (n j : ℕ) → or_null (get_elem? (replicate {A = Option FdCtx} n none) j) ≡ none
slots_null zero j = refl
slots_null (suc n) zero = refl
slots_null (suc n) (suc j) = slots_null n j

pub new_fd_manager-IsValid : IsValid new_fd_manager
new_fd_manager-IsValid = record {
  size = omega arith;
  size_max = omega arith;
  good = λ fd c h. absurd (ground (arith, slots_null 64 fd));
}

-- Growing gives the slot room and keeps what the others hold.
grown_lem :
    (m : FdManager) (fd : ℕ)
    → 64 ≤ length m.fds
    → length m.fds < 2 ^ 31
    → fd * 3 / 2 < 2 ^ 31
    → (fd < length (grown m fd))
      × (length (grown m fd) < 2 ^ 31)
      × (length m.fds ≤ length (grown m fd))
      × ((j : ℕ) → or_null (get_elem? (grown m fd) j) ≡ slot m j)
unfolding grown
grown_lem m fd h small fits = elim (Bool-cases (leb (length m.fds) fd)) [
  | inl e ↦ (
    rw e (ground (arith, length-resize (fd * 3 / 2) m.fds)),
    rw e (ground (arith, length-resize (fd * 3 / 2) m.fds)),
    rw e (ground (arith, length-resize (fd * 3 / 2) m.fds)),
    λ j. rw e (slot-resize (fd * 3 / 2) m.fds j (ground arith)),
  )
  | inr e ↦ (ground arith, ground arith, ground arith, λ j. rw e refl)
]

module _ (kernel : Kernel) where
  open kernel use {State, fstat}

  init_mode-IsGoodCtx :
      (k : State) (fd : ℤ) (mode : Option Bool) → IsGoodCtx (init_mode kernel k fd mode).0
  unfolding init_mode
  init_mode-IsGoodCtx k fd none = record {
    never_closed = refl;
    sys_of_socket = refl;
    init_of_socket = λ h. cc;
  }
  init_mode-IsGoodCtx k fd (some sock) = record {
    never_closed = refl;
    sys_of_socket = refl;
    init_of_socket = λ h. refl;
  }

  -- What get() hands out: the context in the slot, or a new one where it may create one.
  abbrev pub got : FdManager → State → ℕ → Bool → Option FdCtx
  got m k fd auto_create =
      if is_some (slot m fd) || not auto_create
      then slot m fd
      else some (new_fd_ctx kernel k (pos fd)).0

  pub created-IsGoodCtx :
      (m m' : FdManager) (k : State) (fd j : ℕ) (d : FdCtx)
      → IsValid m
      → ((j : ℕ)
          → slot m' j ≡ (if fd == j then some (new_fd_ctx kernel k (pos fd)).0 else slot m j))
      → slot m' j ≡ some d
      → IsGoodCtx d
  created-IsGoodCtx m m' k fd j d v same h = elim (Bool-cases (fd == j)) [
    | inl e ↦
        (let fresh : (new_fd_ctx kernel k (pos fd)).0 ≡ d = ground (arith, same j) in
          subst IsGoodCtx fresh
            (unfold new_fd_ctx in init_mode-IsGoodCtx k (pos fd) (fstat k (pos fd))))
    | inr e ↦ v.good j d (ground (arith, same j))
  ]

  pub create_lem :
      (m : FdManager) (k : State) (fd : ℕ)
      → IsValid m
      → fd * 3 / 2 < 2 ^ 31
      → (m' : FdManager) × (create kernel m k fd
          ≡ done (m', (new_fd_ctx kernel k (pos fd)).1, some (new_fd_ctx kernel k (pos fd)).0))
        × (length m.fds ≤ length m'.fds)
        × (length m'.fds < 2 ^ 31)
        × ((j : ℕ)
            → slot m' j ≡ (if fd == j then some (new_fd_ctx kernel k (pos fd)).0 else slot m j))
  unfolding create
  create_lem m k fd v fits =
      let (room, small, more, same) = grown_lem m fd v.size v.size_max fits in
      let c = some (new_fd_ctx kernel k (pos fd)).0 in
      (
        record { fds = set (grown m fd) fd c },
        rw (lt→ltb _ _ room) refl,
        rw (length-set (grown m fd) fd c) more,
        rw (length-set (grown m fd) fd c) small,
        λ j. slot-set (grown m fd) fd j c room ∙ ap (λ o. if fd == j then c else o) (same j),
      )

  pub get_present :
      (m : FdManager) (k : State) (fd : ℕ) (auto_create : Bool)
      → length m.fds < 2 ^ 31
      → (is_some (slot m fd) || not auto_create) ≡ true
      → get kernel m k (pos fd) auto_create ≡ done (m, k, slot m fd)
  unfolding get
  get_present m k fd true small e =
      ground (arith, slot_bound m fd, exceeds_lem (length m.fds) fd small)
  get_present m k fd false small e =
      ground (arith, slot_bound m fd, exceeds_lem (length m.fds) fd small)

  pub get_absent :
      (m : FdManager) (k : State) (fd : ℕ) (auto_create : Bool)
      → length m.fds < 2 ^ 31
      → (is_some (slot m fd) || not auto_create) ≡ false
      → get kernel m k (pos fd) auto_create ≡ create kernel m k fd
  unfolding get
  get_absent m k fd true small e = ground (arith, exceeds_lem (length m.fds) fd small)
  get_absent m k fd false small e = ground arith

  -- get(fd, autoCreate), on a valid table, of a descriptor of which 1.5 times is below 2 ^ 31, always
  -- returns, within the bounds of the vector: the context in the slot, or a new one if there is none and it
  -- may create one. That is what the slot then holds; the other slots are as before, and the table
  -- is valid.
  pub get-Returns :
      (m : FdManager) (k : State) (fd : ℕ) (auto_create : Bool)
      → IsValid m
      → fd * 3 / 2 < 2 ^ 31
      → (m' : FdManager) × (k' : State) × (get kernel m k (pos fd) auto_create
          ≡ done (m', k', got m k fd auto_create))
        × IsValid m'
        × ((j : ℕ) → slot m' j ≡ (if fd == j then got m k fd auto_create else slot m j))
  get-Returns m k fd auto_create v fits =
      elim (Bool-cases (is_some (slot m fd) || not auto_create)) [
        | inl e ↦ (
          m,
          k,
          get_present m k fd auto_create v.size_max e
              ∙ ap (λ c. done (m, k, c)) (sym (if_true _ _ e)),
          v,
          λ j. rw (if_true (slot m fd) _ e) (ground arith),
        )
        | inr e ↦
            (let (m', r, more, small, same) = create_lem m k fd v fits in
              let c = some (new_fd_ctx kernel k (pos fd)).0 in
              let path : c ≡ got m k fd auto_create = sym (if_false (slot m fd) c e) in
              (
                m',
                (new_fd_ctx kernel k (pos fd)).1,
                get_absent m k fd auto_create v.size_max e
                    ∙ r
                    ∙ ap (λ o. done (m', (new_fd_ctx kernel k (pos fd)).1, o)) path,
                record {
                  size = omega arith;
                  size_max = small;
                  good = λ j d h. created-IsGoodCtx m m' k fd j d v same h;
                },
                λ j. same j ∙ ap (λ c. if fd == j then c else slot m j) path,
              ))
      ]
