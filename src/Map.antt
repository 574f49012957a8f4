-- ===== src/Map.antt =====
-- std::map as the program uses it: an association list in the order of its keys. `insert` keeps the
-- value of a key that is there, `assign` is `m[k] = v`. The order shows where a map is iterated.
pub mod Laws
use sdpgateway_verification.Prelude.{
  ℕ, suc, ◌≡◌, ◌↔◌, Bool, true, false, Option, none, some, List, [], ◌∷◌, if◌then◌else◌, ℤ, int_eq,
  int_eq_iff, int_ltb, Bytes, bytes_eq, bytes_eq_iff, bytes_ltb,
}

-- The comparison of a key type.
pub record Key (K : Type 0) : Type 0 where
  pub beq : K → K → Bool
  pub beq_iff : (a b : K) → (beq a b ≡ true) ↔ (a ≡ b)
  pub before : K → K → Bool

infix 50 ◌==◌
abbrev pub ◌==◌ : {K : Type 0} ⦃e : Key K⦄ → K → K → Bool
◌==◌ ⦃e⦄ = e.beq

instance abbrev pub bytes_key : Key Bytes
bytes_key = record { beq = bytes_eq; beq_iff = bytes_eq_iff; before = bytes_ltb }

instance abbrev pub int_key : Key ℤ
int_key = record { beq = int_eq; beq_iff = int_eq_iff; before = int_ltb }

abbrev pub Map : Type 0 → Type 0 → Type 0
Map K V = List (K × V)

abbrev is_some : {V : Type 0} → Option V → Bool
is_some none = false
is_some (some v) = true

module _ {K V : Type 0} ⦃e : Key K⦄ where
  -- m.find(k)
  unfoldable pub find : K → Map K V → Option V
  find k [] = none
  find k ((j, v) ∷ m) = if k == j then some v else find k m

  -- m.find(k) != m.end()
  abbrev pub contains : K → Map K V → Bool
  contains k m = is_some (find k m)

  -- m[k] = v
  unfoldable pub assign : K → V → Map K V → Map K V
  assign k v [] = (k, v) ∷ []
  assign k v ((j, w) ∷ m) =
      let later = assign k v m in
      if k == j then (k, v) ∷ m else if e.before k j then (k, v) ∷ (j, w) ∷ m else (j, w) ∷ later

  -- m.insert(make_pair(k, v))
  unfoldable pub insert : K → V → Map K V → Map K V
  unfolding find assign
  insert k v m = if contains k m then m else assign k v m

  -- m.erase(k)
  unfoldable pub erase : K → Map K V → Map K V
  erase k [] = []
  erase k ((j, w) ∷ m) = let rest = erase k m in if k == j then rest else (j, w) ∷ rest
