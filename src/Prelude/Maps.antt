-- ===== src/Prelude/Maps.antt =====
-- Go maps as association lists: `get` is `m[k]` with its `ok`, `put` is `m[k] = v`, `del` is
-- `delete(m, k)`. The order of the list is the order of one `range` loop.
use mathlib.Core.Path.{◌≡◌, refl, ◌∙◌}
use mathlib.Core.Logic.{inl, inr}
use mathlib.Core.Bool.{Bool, true, false}
use mathlib.Core.Option.{Option, none, some}
use mathlib.Core.List.{List, [], ◌∷◌}
use native.Mathlib.Omega.{arith}
use game01_server.Prelude.Tests.{if◌then◌else◌, Bool-cases}
use game01_server.Prelude.Eq.{Eq}

abbrev pub Map {ℓ κ} : Type ℓ → Type κ → Type (ℓ ⊔ κ)
Map K V = List (K × V)

abbrev pub is_some {ℓ} : {A : Type ℓ} → Option A → Bool
is_some none = false
is_some (some v) = true

module _ {ℓ κ} {K : Type ℓ} {V : Type κ} ⦃e : Eq K⦄ where
  unfoldable pub get : Map K V → K → Option V
  get [] k = none
  get ((j, v) ∷ m) k = if e.eqb j k then some v else get m k

  unfoldable pub put : Map K V → K → V → Map K V
  put [] k v = (k, v) ∷ []
  put ((j, w) ∷ m) k v = if e.eqb j k then (j, v) ∷ m else (j, w) ∷ put m k v

  unfoldable pub del : Map K V → K → Map K V
  del [] k = []
  del ((j, w) ∷ m) k = if e.eqb j k then del m k else (j, w) ∷ del m k

  unfoldable pub has : Map K V → K → Bool
  has m k = is_some (get m k)

  pub get-put :
      (m : Map K V) (k : K) (v : V) (j : K)
      → get (put m k v) j ≡ (if e.eqb k j then some v else get m j)
  unfolding get put
  get-put [] k v j = refl
  get-put ((i, w) ∷ m) k v j =
      ground (arith, e.eqb_iff i k, e.eqb_iff k j, e.eqb_iff i j, get-put m k v j)

  pub get-del : (m : Map K V) (k j : K) → get (del m k) j ≡ (if e.eqb k j then none else get m j)
  unfolding get del
  get-del [] k j = ground arith
  get-del ((i, w) ∷ m) k j =
      ground (arith, e.eqb_iff i k, e.eqb_iff k j, e.eqb_iff i j, get-del m k j)

  pub get-put_self : (m : Map K V) (k : K) (v : V) → get (put m k v) k ≡ some v
  get-put_self m k v = ground (arith, get-put m k v k, e.eqb_iff k k)

  pub get-del_self : (m : Map K V) (k : K) → get (del m k) k ≡ none
  get-del_self m k = ground (arith, get-del m k k, e.eqb_iff k k)

  -- Every key stands once.
  abbrev pub Distinct : Map K V → Type (ℓ ⊔ κ)
  Distinct [] = Unit
  Distinct ((k, v) ∷ m) = (get m k ≡ none) × Distinct m

  pub put-Distinct : (m : Map K V) (k : K) (v : V) → Distinct m → Distinct (put m k v)
  unfolding put get
  put-Distinct [] k v d = (refl, tt)
  put-Distinct ((j, w) ∷ m) k v d = elim (Bool-cases (e.eqb j k)) [
    | inl same ↦ rw same d
    | inr differ ↦
        rw differ
          (get-put m k v j ∙ ground (arith, e.eqb_iff j k, e.eqb_iff k j), put-Distinct m k v d.1)
  ]

  pub del-Distinct : (m : Map K V) (k : K) → Distinct m → Distinct (del m k)
  unfolding del
  del-Distinct [] k d = tt
  del-Distinct ((j, w) ∷ m) k d = elim (Bool-cases (e.eqb j k)) [
    | inl same ↦ rw same (del-Distinct m k d.1)
    | inr differ ↦ rw differ (ground (arith, get-del m k j), del-Distinct m k d.1)
  ]
