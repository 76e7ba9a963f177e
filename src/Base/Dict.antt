-- ===== src/Base/Dict.antt =====
-- A JavaScript `Map` with text keys: an association list in insertion order, in which `set` replaces
-- the value of a key in its place.
use Prim.Native.String.{String}
use mathlib.Core.Path.{◌≡◌, refl, sym, ap, ◌∙◌}
use mathlib.Core.Logic.{inl, inr}
use mathlib.Core.Option.{Option, none, some}
use mathlib.Core.List.{List, [], ◌∷◌}
use native.Mathlib.Omega.{arith}
use text.Mathlib.Text.{◌==◌ as str_eq}
use text.Mathlib.TextEquality.{eq_iff}
use open_smart_charge.Base.Tests.{if◌then◌else◌, Bool-cases}

abbrev pub Dict {ℓ} : Type ℓ → Type ℓ
Dict V = List (String × V)

module _ {ℓ} {V : Type ℓ} where
  unfoldable pub get : Dict V → String → Option V
  get [] k = none
  get ((j, v) ∷ m) k = if str_eq j k then some v else get m k

  unfoldable pub put : Dict V → String → V → Dict V
  put [] k v = (k, v) ∷ []
  put ((j, w) ∷ m) k v = if str_eq j k then (j, v) ∷ m else (j, w) ∷ put m k v

  unfoldable pub remove : Dict V → String → Dict V
  remove [] k = []
  remove ((j, w) ∷ m) k = if str_eq j k then remove m k else (j, w) ∷ remove m k

  abbrev put_found : Option V → Dict V → String → (V → V) → Dict V
  put_found none m k f = m
  put_found (some v) m k f = put m k (f v)

  -- A change of the value of a key that is there.
  unfoldable pub update : Dict V → String → (V → V) → Dict V
  update m k f = put_found (get m k) m k f

  abbrev pub mapped : Option V → (V → V) → Option V
  mapped none f = none
  mapped (some v) f = some (f v)

  pub get-put :
      (m : Dict V) (k j : String) (v : V)
      → get (put m k v) j ≡ (if str_eq k j then some v else get m j)
  unfolding get put
  get-put [] k j v = refl
  get-put ((i, w) ∷ m) k j v = ground (arith, eq_iff k j, eq_iff i k, eq_iff i j, get-put m k j v)

  pub get-remove :
      (m : Dict V) (k j : String) → get (remove m k) j ≡ (if str_eq k j then none else get m j)
  unfolding get remove
  get-remove [] k j = ground arith
  get-remove ((i, w) ∷ m) k j = ground (arith, eq_iff k j, eq_iff i k, eq_iff i j, get-remove m k j)

  get-put_found :
      (o : Option V) (m : Dict V) (k j : String) (f : V → V)
      → get m k ≡ o
      → get (put_found o m k f) j ≡ (if str_eq k j then mapped (get m j) f else get m j)
  get-put_found none m k j f e = ground (arith, eq_iff k j)
  get-put_found (some v) m k j f e = elim (Bool-cases (str_eq k j)) [
    | inl same ↦
        get-put m k j (f v)
        ∙ rw same (sym (ap (λ o. mapped o f) (ap (get m) (sym ((eq_iff k j).0 same)) ∙ e)))
    | inr other ↦ get-put m k j (f v) ∙ rw other refl
  ]

  pub get-update :
      (m : Dict V) (k j : String) (f : V → V)
      → get (update m k f) j ≡ (if str_eq k j then mapped (get m j) f else get m j)
  unfolding update
  get-update m k j f = get-put_found (get m k) m k j f refl

  pub get-update_here :
      (m : Dict V) (k : String) (v : V) (f : V → V)
      → get m k ≡ some v
      → get (update m k f) k ≡ some (f v)
  get-update_here m k v f e = get-update m k k f ∙ rw ((eq_iff k k).1 refl, e) refl
