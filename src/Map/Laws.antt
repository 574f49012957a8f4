-- ===== src/Map/Laws.antt =====
-- The laws of std::map: what is found after each update.
use sdpgateway_verification.Prelude.{
  suc, ◌≡◌, refl, true, false, none, some, [], ◌∷◌, arith, if◌then◌else◌, length,
}
use sdpgateway_verification.Map.{Key, Map, ◌==◌, find, contains, assign, insert, erase}

pub ==-refl : {K : Type 0} ⦃e : Key K⦄ (k : K) → (k == k) ≡ true
==-refl ⦃e⦄ k = (e.beq_iff k k).1 refl

module _ {K V : Type 0} ⦃e : Key K⦄ where
  pub find-assign :
      (j k : K) (v : V) (m : Map K V)
      → find j (assign k v m) ≡ (if j == k then some v else find j m)
  unfolding find assign
  find-assign j k v [] = refl
  find-assign j k v ((i, w) ∷ m) =
      ground (arith, e.beq_iff j k, e.beq_iff k i, e.beq_iff j i, find-assign j k v m)

  -- `insert` changes nothing where the key is there.
  pub find-insert :
      (j k : K) (v : V) (m : Map K V)
      → find j (insert k v m)
        ≡ (if contains k m then find j m else if j == k then some v else find j m)
  unfolding insert
  find-insert j k v m = ground (arith, find-assign j k v m)

  pub find-erase :
      (j k : K) (m : Map K V) → find j (erase k m) ≡ (if j == k then none else find j m)
  unfolding find erase
  find-erase j k [] = ground arith
  find-erase j k ((i, w) ∷ m) =
      ground (arith, e.beq_iff j k, e.beq_iff k i, e.beq_iff j i, find-erase j k m)

  -- A key that was not there makes the map one longer.
  pub length-assign_fresh :
      (k : K) (v : V) (m : Map K V) → contains k m ≡ false → length (assign k v m) ≡ suc (length m)
  unfolding find assign
  length-assign_fresh k v [] h = refl
  length-assign_fresh k v ((i, w) ∷ m) h = ground (arith, length-assign_fresh k v m)

pub ruleset map_laws = (find-assign, find-insert, find-erase, ==-refl)
