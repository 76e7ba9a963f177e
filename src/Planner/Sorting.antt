-- ===== src/Planner/Sorting.antt =====
-- The stable sort by price: it keeps the slots and puts them in order.
use open_smart_charge.Base.{
  suc, length, ◌≡◌, refl, Bool, true, false, List, [], ◌∷◌, arith, count_by, All, Bool-cases,
  All-map, inl, inr,
}
use open_smart_charge.Planner.{PricedSlot, not_dearer, insert_by_price, sort_by_price}

count_by-insert :
    (p : PricedSlot → Bool) (x : PricedSlot) (xs : List PricedSlot)
    → count_by p (insert_by_price x xs) ≡ count_by p (x ∷ xs)
unfolding insert_by_price
count_by-insert p x [] = refl
count_by-insert p x (y ∷ ys) = ground (arith, count_by-insert p x ys)

pub count_by-sort :
    (p : PricedSlot → Bool) (xs : List PricedSlot) → count_by p (sort_by_price xs) ≡ count_by p xs
unfolding sort_by_price
count_by-sort p [] = refl
count_by-sort p (x ∷ xs) = omega (arith, count_by-insert p x (sort_by_price xs), count_by-sort p xs)

-- What holds of all slots after the sort held of all before.
All-of_insert {κ} :
    (P : PricedSlot → Type κ) (x : PricedSlot) (xs : List PricedSlot)
    → All P (insert_by_price x xs)
    → All P (x ∷ xs)
unfolding insert_by_price
All-of_insert P x [] h = h
All-of_insert P x (y ∷ ys) h = elim (Bool-cases (not_dearer x.price y.price)) [
  | inl le ↦ rw le at h
  | inr gt ↦
      let (hy, hs) : P y × All P (insert_by_price x ys) = rw gt at h in
      let (hx, hys) = All-of_insert P x ys hs in (hx, (hy, hys))
]

pub All-of_sort {κ} :
    (P : PricedSlot → Type κ) (xs : List PricedSlot) → All P (sort_by_price xs) → All P xs
unfolding sort_by_price
All-of_sort P [] h = tt
All-of_sort P (x ∷ xs) h =
    let (hx, hs) = All-of_insert P x (sort_by_price xs) h in (hx, All-of_sort P xs hs)

abbrev pub NotDearer : PricedSlot → PricedSlot → Type 0
NotDearer x y = not_dearer x.price y.price ≡ true

-- No slot is dearer than a later one.
abbrev pub IsSorted : List PricedSlot → Type 0
IsSorted [] = Unit
IsSorted (x ∷ xs) = All (NotDearer x) xs × IsSorted xs

NotDearer-trans : (x y z : PricedSlot) → NotDearer x y → NotDearer y z → NotDearer x z
NotDearer-trans x y z h k = ground arith

NotDearer-total : (x y : PricedSlot) → not_dearer x.price y.price ≡ false → NotDearer y x
NotDearer-total x y h = ground arith

All-insert {κ} :
    (P : PricedSlot → Type κ) (x : PricedSlot) (xs : List PricedSlot)
    → P x
    → All P xs
    → All P (insert_by_price x xs)
unfolding insert_by_price
All-insert P x [] hx h = (hx, h)
All-insert P x (y ∷ ys) hx h = elim (Bool-cases (not_dearer x.price y.price)) [
  | inl le ↦ rw le (hx, h)
  | inr gt ↦ rw gt (h.0, All-insert P x ys hx h.1)
]

insert-IsSorted :
    (x : PricedSlot) (xs : List PricedSlot) → IsSorted xs → IsSorted (insert_by_price x xs)
unfolding insert_by_price
insert-IsSorted x [] h = (tt, tt)
insert-IsSorted x (y ∷ ys) h = elim (Bool-cases (not_dearer x.price y.price)) [
  | inl le ↦
      rw le ((le, All-map (NotDearer y) (NotDearer x) ys (λ z. NotDearer-trans x y z le) h.0), h)
  | inr gt ↦
      rw gt (All-insert (NotDearer y) x ys (NotDearer-total x y gt) h.0, insert-IsSorted x ys h.1)
]

pub sort-IsSorted : (xs : List PricedSlot) → IsSorted (sort_by_price xs)
unfolding sort_by_price
sort-IsSorted [] = tt
sort-IsSorted (x ∷ xs) = insert-IsSorted x (sort_by_price xs) (sort-IsSorted xs)

length-insert :
    (x : PricedSlot) (xs : List PricedSlot) → length (insert_by_price x xs) ≡ suc (length xs)
unfolding insert_by_price
length-insert x [] = refl
length-insert x (y ∷ ys) = ground (arith, length-insert x ys)

pub length-sort : (xs : List PricedSlot) → length (sort_by_price xs) ≡ length xs
unfolding sort_by_price
length-sort [] = refl
length-sort (x ∷ xs) = omega (arith, length-insert x (sort_by_price xs), length-sort xs)
