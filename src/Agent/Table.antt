-- ===== src/Agent/Table.antt =====
-- std::map as the agent uses it where the order of the keys is never read: an association list, with
-- the test of equality of the keys.
use efsw.Base.{◌≡◌, refl, Bool, List, [], ◌∷◌, if◌then◌else◌, Option, none, some, arith}

abbrev pub Dict {ℓ κ} : Type ℓ → Type κ → Type (ℓ ⊔ κ)
Dict K V = List (K × V)

module _ {ℓ κ} {K : Type ℓ} {V : Type κ} (eq : K → K → Bool) where
  unfoldable pub find : Dict K V → K → Option V
  find [] k = none
  find ((l, v) ∷ d) k = if eq l k then some v else find d k

  unfoldable pub erase : Dict K V → K → Dict K V
  erase [] k = []
  erase ((l, v) ∷ d) k = let rest = erase d k in if eq l k then rest else (l, v) ∷ rest

  unfoldable pub put : Dict K V → K → V → Dict K V
  unfolding erase
  put d k v = (k, v) ∷ erase d k

  pub find-erase_same : (d : Dict K V) (k : K) → find (erase d k) k ≡ none
  unfolding find erase
  find-erase_same [] k = refl
  find-erase_same ((l, v) ∷ d) k = ground (arith, find-erase_same d k)
