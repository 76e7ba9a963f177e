-- ===== src/Plans/Days.antt =====
-- The weekday mask: its bits are the days.
use Prim.Native.Nat.{bit_or}
use open_smart_charge.Base.{
  ℕ, zero, suc, ◌^◌, ◌<◌, ◌≡◌, refl, ◌∙◌, sym, ap, Bool, true, false, ◌&&◌, ◌||◌, not, List, [],
  ◌∷◌, arith, ◌==◌, if◌then◌else◌, ==_iff, ltb, ltb→lt, and_parts,
}
use open_smart_charge.Plans.{
  DayKey, mon, tue, wed, thu, fri, sat, sun, index_of, same_day, has_day, add_days, days_to_mask,
  in_mask, mask_to_days,
}

-- A test of every mask below a bound.
abbrev each_mask : (ℕ → Bool) → ℕ → Bool
each_mask test zero = true
each_mask test (suc bound) = if test bound then each_mask test bound else false

mask_passes :
    (test : ℕ → Bool) (bound mask : ℕ)
    → mask < bound
    → each_mask test bound ≡ true
    → test mask ≡ true
mask_passes test zero mask less passed = absurd (omega arith)
mask_passes test (suc bound) mask less passed = ground (arith, mask_passes test bound mask)

abbrev same : Bool → Bool → Bool
same true b = b
same false b = not b

all_days : (DayKey → Bool) → Bool
all_days p = p mon && (p tue && (p wed && (p thu && (p fri && (p sat && p sun)))))

all_days_sound : (p : DayKey → Bool) (d : DayKey) → all_days p ≡ true → p d ≡ true
unfolding all_days
all_days_sound p mon h = ground arith
all_days_sound p tue h = ground arith
all_days_sound p wed h = ground arith
all_days_sound p thu h = ground arith
all_days_sound p fri h = ground arith
all_days_sound p sat h = ground arith
all_days_sound p sun h = ground arith

abbrev adds : ℕ → DayKey → DayKey → Bool
adds mask d e =
    let m = bit_or mask (2 ^ index_of d) in
    ltb m 128 && same (in_mask m e) (same_day d e || in_mask mask e)

adds_table : each_mask (λ mask. all_days (λ d. all_days (adds mask d))) 128 ≡ true
unfolding all_days
adds_table = refl

same_sound : (a b : Bool) → same a b ≡ true → a ≡ b
same_sound true b h = sym h
same_sound false true h = absurd cc
same_sound false false h = refl

add_one :
    (mask : ℕ) (d e : DayKey)
    → mask < 128
    → let m = bit_or mask (2 ^ index_of d) in
      (m < 128) × (in_mask m e ≡ (same_day d e || in_mask mask e))
add_one mask d e lt =
    let all : adds mask d e ≡ true = all_days_sound (adds mask d) e (
      all_days_sound (λ x. all_days (adds mask x)) d
        (mask_passes (λ x. all_days (λ y. all_days (adds x y))) 128 mask lt adds_table)) in
    let m = bit_or mask (2 ^ index_of d) in
    let (l, r) = and_parts (ltb m 128) (same (in_mask m e) (same_day d e || in_mask mask e)) all in
    (ltb→lt m 128 l, same_sound _ _ r)

or_shift : (a b c : Bool) → (a || (b || c)) ≡ ((b || a) || c)
or_shift a b c = ground arith

adds_all :
    (mask : ℕ) (days : List DayKey) (e : DayKey)
    → mask < 128
    → (add_days mask days < 128)
      × (in_mask (add_days mask days) e ≡ (has_day days e || in_mask mask e))
unfolding add_days
adds_all mask [] e lt = (lt, refl)
adds_all mask (d ∷ ds) e lt =
    let (l, one) = add_one mask d e lt in
    let (less, rest) = adds_all (bit_or mask (2 ^ index_of d)) ds e l in
    (
      less,
      rest
          ∙ ap (λ b. has_day ds e || b) one
          ∙ or_shift (has_day ds e) (same_day d e) (in_mask mask e),
    )

reads_table :
    each_mask (λ m. all_days (λ d. same (has_day (mask_to_days m) d) (in_mask m d))) 128 ≡ true
unfolding all_days mask_to_days
reads_table = refl

reads : (m : ℕ) (d : DayKey) → m < 128 → has_day (mask_to_days m) d ≡ in_mask m d
reads m d lt = same_sound _ _ (
    all_days_sound (λ d. same (has_day (mask_to_days m) d) (in_mask m d)) d
      (mask_passes (λ m. all_days (λ d. same (has_day (mask_to_days m) d) (in_mask m d))) 128 m lt
        reads_table))

masks_table : each_mask (λ m. days_to_mask (mask_to_days m) == m) 128 ≡ true
unfolding days_to_mask add_days mask_to_days
masks_table = refl

or_false : (b : Bool) → (b || false) ≡ b
or_false b = ground arith

in_zero : (d : DayKey) → in_mask 0 d ≡ false
in_zero mon = refl
in_zero tue = refl
in_zero wed = refl
in_zero thu = refl
in_zero fri = refl
in_zero sat = refl
in_zero sun = refl

-- The column of weekdays loses nothing: the mask of any list of days is below 128 and reads back as a
-- list with the same days, and every mask below 128 reads as days that make the same mask.
pub mask_to_days-days_to_mask :
    (days : List DayKey)
    → (days_to_mask days < 128)
      × ((d : DayKey) → has_day (mask_to_days (days_to_mask days)) d ≡ has_day days d)
      × ((m : ℕ) → m < 128 → days_to_mask (mask_to_days m) ≡ m)
unfolding days_to_mask
mask_to_days-days_to_mask days =
    let less = (adds_all 0 days mon (omega arith)).0 in
    (
      less,
      λ d.
          reads (add_days 0 days) d less
          ∙ (adds_all 0 days d (omega arith)).1
          ∙ ap (λ b. has_day days d || b) (in_zero d)
          ∙ or_false (has_day days d),
      λ m lt.
          (==_iff _ m).0
            (mask_passes (λ m. days_to_mask (mask_to_days m) == m) 128 m lt masks_table),
    )
