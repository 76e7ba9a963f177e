-- ===== src/PowerHistory/Window.antt =====
-- The buffer stays within its window.
use open_smart_charge.Base.{
  ℕ, ◌+◌, ◌*◌, ◌≤◌, ◌≡◌, refl, subst, Bool, Bool-cases, inl, inr, some, List, [], ◌∷◌, ◌++◌, length,
  arith, ltb, if◌then◌else◌, true, false,
}
use open_smart_charge.PowerHistory.{
  PowerSample, window, min_interval, last_sample, is_throttled, prune, push_power_sample,
}

-- Samples from `s` on, each at least ten seconds after the one before, up to `top`.
abbrev pub IsSpaced : PowerSample → List PowerSample → ℕ → Type 0
IsSpaced s [] top = s.t ≡ top
IsSpaced s (x ∷ xs) top = (s.t + min_interval ≤ x.t) × IsSpaced x xs top

-- The samples end at `top` and lie in the window before it.
abbrev pub EndsAt : ℕ → List PowerSample → Type 0
EndsAt top [] = ⊥
EndsAt top (s ∷ xs) = IsSpaced s xs top × (top ≤ s.t + window)

abbrev pub IsWindow : List PowerSample → Type 0
IsWindow [] = Unit
IsWindow (s ∷ xs) = (top : ℕ) × EndsAt top (s ∷ xs)

unfoldable newest : PowerSample → List PowerSample → PowerSample
newest s [] = s
newest s (x ∷ xs) = newest x xs

last_sample-newest :
    (s : PowerSample) (xs : List PowerSample) → last_sample (s ∷ xs) ≡ some (newest s xs)
unfolding last_sample newest
last_sample-newest s [] = refl
last_sample-newest s (x ∷ xs) = last_sample-newest x xs

newest-IsSpaced :
    (s : PowerSample) (xs : List PowerSample) (top : ℕ) → IsSpaced s xs top → (newest s xs).t ≡ top
unfolding newest
newest-IsSpaced s [] top h = h
newest-IsSpaced s (x ∷ xs) top h = newest-IsSpaced x xs top h.1

IsSpaced-append :
    (s : PowerSample) (xs : List PowerSample) (top : ℕ) (new : PowerSample)
    → IsSpaced s xs top
    → top + min_interval ≤ new.t
    → IsSpaced s (xs ++ (new ∷ [])) new.t
IsSpaced-append s [] top new h le = (omega (arith, h, le), refl)
IsSpaced-append s (x ∷ xs) top new h le = (h.0, IsSpaced-append x xs top new h.1 le)

length-IsSpaced :
    (s : PowerSample) (xs : List PowerSample) (top : ℕ)
    → IsSpaced s xs top
    → s.t + length xs * 10_000 ≤ top
length-IsSpaced s [] top h = omega (arith, h)
length-IsSpaced s (x ∷ xs) top h = omega (arith, h.0, length-IsSpaced x xs top h.1)

pub length-IsWindow : (buf : List PowerSample) → IsWindow buf → length buf ≤ 91
length-IsWindow [] h = omega arith
length-IsWindow (s ∷ xs) (top, (spaced, le)) = omega (arith, le, length-IsSpaced s xs top spaced)

EndsAt-if :
    (b : Bool) (top : ℕ) (xs ys : List PowerSample)
    → (b ≡ true → EndsAt top xs)
    → (b ≡ false → EndsAt top ys)
    → EndsAt top (if b then xs else ys)
EndsAt-if true top xs ys hx hy = hx refl
EndsAt-if false top xs ys hx hy = hy refl

-- Pruning spaced samples leaves the last one at least.
prune-EndsAt :
    (s : PowerSample) (xs : List PowerSample) (top : ℕ)
    → IsSpaced s xs top
    → EndsAt top (prune top (s ∷ xs))
unfolding prune
prune-EndsAt s [] top h =
    EndsAt-if (ltb (s.t + window) top) top [] (s ∷ []) (λ e. ground (arith, h, e))
      (λ e. (h, ground (arith, h, e)))
prune-EndsAt s (x ∷ xs) top h =
    EndsAt-if (ltb (s.t + window) top) top (prune top (x ∷ xs)) (s ∷ x ∷ xs)
      (λ e. prune-EndsAt x xs top h.1) (λ e. (h, ground (arith, e)))

append-EndsAt :
    (buf : List PowerSample) (new : PowerSample)
    → IsWindow buf
    → is_throttled (last_sample buf) new.t ≡ false
    → EndsAt new.t (prune new.t (buf ++ (new ∷ [])))
unfolding is_throttled last_sample
append-EndsAt [] new w e = prune-EndsAt new [] new.t refl
append-EndsAt (s ∷ xs) new (top, (spaced, le)) e = prune-EndsAt s (xs ++ (new ∷ [])) new.t (
    IsSpaced-append s xs top new spaced
      (not_throttled (subst (λ o. is_throttled o new.t ≡ false) (last_sample-newest s xs) e)))
  where
    not_throttled : is_throttled (some (newest s xs)) new.t ≡ false → top + min_interval ≤ new.t
    not_throttled h = ground (arith, h, newest-IsSpaced s xs top spaced)

EndsAt-IsWindow : (top : ℕ) (buf : List PowerSample) → EndsAt top buf → IsWindow buf
EndsAt-IsWindow top [] h = tt
EndsAt-IsWindow top (s ∷ xs) h = (top, h)

EndsAt-is_throttled :
    (top : ℕ) (buf : List PowerSample) → EndsAt top buf → is_throttled (last_sample buf) top ≡ true
unfolding is_throttled
EndsAt-is_throttled top [] h = elim h [ ]
EndsAt-is_throttled top (s ∷ xs) h =
    rw (last_sample-newest s xs) (ground (arith, newest-IsSpaced s xs top h.0))

pub push-IsWindow :
    (buf : List PowerSample) (r : PowerSample)
    → IsWindow buf
    → let buf' = push_power_sample buf r.total r.ev r.t in
      IsWindow buf' × (is_throttled (last_sample buf') r.t ≡ true)
unfolding push_power_sample
push-IsWindow buf r w = elim (Bool-cases (is_throttled (last_sample buf) r.t)) [
  | inl e ↦ rw e (w, e)
  | inr e ↦
      let h = append-EndsAt buf r w e in rw e (EndsAt-IsWindow r.t _ h, EndsAt-is_throttled r.t _ h)
]
