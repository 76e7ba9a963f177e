-- ===== src/Planner/Slots.antt =====
-- `generateSlots`: the quarters between two instants.
use open_smart_charge.Base.{
  ℕ, zero, suc, ◌+◌, ◌*◌, ◌%◌, ◌≤◌, ◌<◌, ◌≡◌, refl, List, [], ◌∷◌, arith, ltb, Bool-cases, inl, inr,
}
use open_smart_charge.Planner.{Slot, quarter, round_up, slots_from, generate_slots}

-- The slots follow one another without a gap from `cursor` on, each a quarter long, and the last one
-- is the first that reaches `to`.
abbrev pub Cover : ℕ → ℕ → List Slot → Type 0
Cover cursor to [] = to ≤ cursor
Cover cursor to (s ∷ ss) =
    (s.start ≡ cursor)
    × (s.start < to)
    × (s.stop ≡ cursor + quarter)
    × Cover (cursor + quarter) to ss

slots_from-Cover :
    (f cursor to : ℕ) → to ≤ cursor + f * quarter → Cover cursor to (slots_from f cursor to)
unfolding slots_from
slots_from-Cover zero cursor to h = omega arith
slots_from-Cover (suc f) cursor to h = elim (Bool-cases (ltb cursor to)) [
  | inl lt ↦
      rw lt (refl, ground arith, refl, slots_from-Cover f (cursor + quarter) to (omega arith))
  | inr ge ↦ rw ge (ground arith)
]

-- The plan's quarters start at the first whole quarter at or after `from`, follow one another without
-- a gap, and reach the target time; none starts at or after it.
pub generate_slots-Cover :
    (from to : ℕ)
    → (from ≤ round_up from)
      × (round_up from < from + quarter)
      × (round_up from % quarter ≡ 0)
      × Cover (round_up from) to (generate_slots from to)
unfolding generate_slots
generate_slots-Cover from to = (
  unfold round_up in ground arith,
  unfold round_up in ground arith,
  unfold round_up in ground arith,
  slots_from-Cover _ (round_up from) to (omega arith),
)
