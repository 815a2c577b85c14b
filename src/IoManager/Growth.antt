-- ===== src/IoManager/Growth.antt =====
-- The vector of contexts: contextResize by the constructor and by addEvent.
use doroutine.Prelude.{
  ℕ, zero, suc, ◌+◌, ◌*◌, ◌/◌, ltb, ltb→lt, get_elem?_lt, ◌^◌, ◌≤◌, ◌<◌, ◌≡◌, refl, sym, ap, subst,
  ◌∙◌, ◌⊎◌, inl, inr, Option, none, some, List, [], ◌∷◌, length, get_elem?, if◌then◌else◌, if_true,
  if_false, Bool-cases, arith,
}
use doroutine.Epoll.{Epoll, Mask, no_events}
use doroutine.IoManager.{FdContext, IoManager, context_resize, new_io_manager, new_context}
use doroutine.IoManager.Context.{total, watched_at, IsGood, watched, IsValid}

length-context_resize : (n k : ℕ) (cs : List FdContext) → length (context_resize n k cs) ≡ n
unfolding context_resize
length-context_resize zero k cs = refl
length-context_resize (suc n) k [] = ap suc (length-context_resize n (suc k) [])
length-context_resize (suc n) k (c ∷ cs) = ap suc (length-context_resize n (suc k) cs)

total-context_resize :
    (n k : ℕ) (cs : List FdContext) → length cs ≤ n → total (context_resize n k cs) ≡ total cs
unfolding context_resize
total-context_resize zero k [] h = refl
total-context_resize zero k (c ∷ cs) h = absurd (omega arith)
total-context_resize (suc n) k [] h = omega (arith, total-context_resize n (suc k) [] (omega arith))
total-context_resize (suc n) k (c ∷ cs) h =
    omega (arith, total-context_resize n (suc k) cs (omega arith))

abbrev pub on_of : Option FdContext → Mask
on_of o = elim o [ none ↦ no_events | some c ↦ c.events ]

abbrev shown : Option FdContext → Option Mask
shown o = elim o [ none ↦ none | some c ↦ watched c.events ]

-- The contexts that were there stay; the others are new, each for its own descriptor.
get-context_resize :
    (n k i : ℕ) (cs : List FdContext)
    → length cs ≤ n
    → (get_elem? (context_resize n k cs) i ≡ get_elem? cs i)
      ⊎ ((get_elem? (context_resize n k cs) i ≡ some (new_context (k + i)))
          × (get_elem? cs i ≡ none))
unfolding context_resize
get-context_resize zero k i [] h = inl refl
get-context_resize zero k i (c ∷ cs) h = absurd (omega arith)
get-context_resize (suc n) k zero [] h = inr (ap (λ j. some (new_context j)) (omega arith), refl)
get-context_resize (suc n) k (suc i) [] h = elim (get-context_resize n (suc k) i [] (omega arith)) [
  | inl e ↦ inl e
  | inr (e, f) ↦ inr (e ∙ ap (λ j. some (new_context j)) (omega arith), f)
]
get-context_resize (suc n) k zero (c ∷ cs) h = inl refl
get-context_resize (suc n) k (suc i) (c ∷ cs) h =
    elim (get-context_resize n (suc k) i cs (omega arith)) [
      | inl e ↦ inl e
      | inr (e, f) ↦ inr (e ∙ ap (λ j. some (new_context j)) (omega arith), f)
    ]

new_context-IsGood : (fd : ℕ) → IsGood fd (new_context fd)
new_context-IsGood fd = record { at_fd = refl; read_wired = refl; write_wired = refl }

-- The manager after contextResize, which addEvent calls for a descriptor out of range.
abbrev pub grown : (epoll : Epoll) → IoManager epoll → ℕ → IoManager epoll
grown epoll m fd =
    if ltb fd (length m.fd_contexts)
    then m
    else record m { fd_contexts = context_resize (fd * 3 / 2) 0 m.fd_contexts }

module _ (epoll : Epoll) (m : IoManager epoll) (n : ℕ) (v : IsValid epoll m)
    (more : length m.fd_contexts ≤ n) (small : n < 2 ^ 31) where
  open epoll use {interest}

  abbrev resized : IoManager epoll
  resized = record m { fd_contexts = context_resize n 0 m.fd_contexts }

  resized-IsGood : (j : ℕ) (d : FdContext) → get_elem? resized.fd_contexts j ≡ some d → IsGood j d
  resized-IsGood j d h = elim (get-context_resize n 0 j m.fd_contexts more) [
    | inl e ↦ v.good j d (sym e ∙ h)
    | inr (e, f) ↦
        (let same : new_context (0 + j) ≡ d = cc in
          subst (IsGood j) same
            (subst (λ k. IsGood j (new_context k)) (omega arith) (new_context-IsGood j)))
  ]

  resized_mirrored : (j : ℕ) → interest m.epfd j ≡ watched_at resized.fd_contexts j
  resized_mirrored j = v.mirrored j ∙ (elim (get-context_resize n 0 j m.fd_contexts more) [
    | inl e ↦ ap shown (sym e)
    | inr (e, f) ↦ ap shown f ∙ ap shown (sym e)
  ])

  resized-IsValid : IsValid epoll resized
  resized-IsValid = record {
    size = omega (arith, length-context_resize n 0 m.fd_contexts, v.size);
    size_max = omega (arith, length-context_resize n 0 m.fd_contexts);
    good = resized-IsGood;
    pending = v.pending ∙ sym (total-context_resize n 0 m.fd_contexts more);
    mirrored = resized_mirrored;
  }

pub grown-IsValid :
    (epoll : Epoll) (m : IoManager epoll) (fd : ℕ)
    → IsValid epoll m
    → fd * 3 / 2 < 2 ^ 31
    → IsValid epoll (grown epoll m fd)
      × ((c : FdContext) × (get_elem? (grown epoll m fd).fd_contexts fd ≡ some c))
grown-IsValid epoll m fd v h = elim (Bool-cases (ltb fd (length m.fd_contexts))) [
  | inl e ↦ rw (if_true _ _ e) (v, get_elem?_lt m.fd_contexts fd (ltb→lt _ _ e))
  | inr e ↦
      (let room : length m.fd_contexts ≤ fd * 3 / 2 = ground (arith, v.size) in
        rw (if_false _ _ e) (
          resized-IsValid epoll m (fd * 3 / 2) v room h,
          get_elem?_lt (context_resize (fd * 3 / 2) 0 m.fd_contexts) fd
              (ground (arith, v.size, length-context_resize (fd * 3 / 2) 0 m.fd_contexts)),
        ))
]

-- The events that are on for a descriptor; none for one out of range.
abbrev pub events_at : List FdContext → ℕ → Mask
events_at cs fd = elim (get_elem? cs fd) [ none ↦ no_events | some c ↦ c.events ]

pub grown_events :
    (epoll : Epoll) (m : IoManager epoll) (fd j : ℕ)
    → IsValid epoll m
    → events_at (grown epoll m fd).fd_contexts j ≡ events_at m.fd_contexts j
grown_events epoll m fd j v = elim (Bool-cases (ltb fd (length m.fd_contexts))) [
  | inl e ↦ rw (if_true _ _ e) refl
  | inr e ↦
      rw (if_false _ _ e)
        (elim (get-context_resize (fd * 3 / 2) 0 j m.fd_contexts (ground (arith, v.size))) [
          | inl f ↦ ap on_of f
          | inr (f, k) ↦ ap on_of f ∙ ap on_of (sym k)
        ])
]

fresh-IsGood : (j : ℕ) (d : FdContext) → get_elem? (context_resize 32 0 []) j ≡ some d → IsGood j d
fresh-IsGood j d h = elim (get-context_resize 32 0 j [] (omega arith)) [
  | inl e ↦ cc
  | inr (e, f) ↦
      (let same : new_context (0 + j) ≡ d = cc in
        subst (IsGood j) same
          (subst (λ k. IsGood j (new_context k)) (omega arith) (new_context-IsGood j)))
]

first_shown : (j : ℕ) → none ≡ watched_at (context_resize 32 0 []) j
first_shown j = elim (get-context_resize 32 0 j [] (omega arith)) [
  | inl e ↦ ap shown (sym e)
  | inr (e, f) ↦ ap shown (sym e)
]

-- The manager that the constructor makes, with an instance of epoll that watches no context, is
-- valid.
pub new_io_manager-IsValid :
    (epoll : Epoll) (ep : Epoll.State epoll)
    → ((fd : ℕ) → Epoll.interest epoll ep fd ≡ none)
    → IsValid epoll (new_io_manager epoll ep)
new_io_manager-IsValid epoll ep idle = record {
  size = omega (arith, length-context_resize 32 0 []);
  size_max = omega (arith, length-context_resize 32 0 []);
  good = λ j d h. fresh-IsGood j d h;
  pending = sym (total-context_resize 32 0 [] (omega arith));
  mirrored = λ j. idle j ∙ first_shown j;
}
