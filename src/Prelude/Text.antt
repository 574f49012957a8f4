-- ===== src/Prelude/Text.antt =====
-- std::string as a list of bytes, with its comparison, `substr` of the whole rest, and to_string.
use Prim.Native.Nat.{ℕ, zero, suc, ◌+◌, ◌/◌, ◌%◌}
use Prim.Native.Char.{code}
use Prim.Native.String.{String}
use mathlib.Core.Path.{◌≡◌, refl}
use mathlib.Core.Logic.{◌↔◌}
use mathlib.Core.Bool.{Bool, true, false, ◌&&◌}
use mathlib.Core.List.{List, [], ◌∷◌}
use native.Mathlib.Omega.{arith}
use sdpgateway_verification.Prelude.Tests.{ltb, nat_eq, if◌then◌else◌}
use sdpgateway_verification.Prelude.Int.{ℤ, pos, negsuc}

abbrev pub Bytes : Type 0
Bytes = List ℕ

-- The bytes of an ASCII literal.
abbrev pub txt : String → Bytes
txt String.[] = []
txt (String.◌∷◌ c s) = code c ∷ txt s

unfoldable pub bytes_eq : Bytes → Bytes → Bool
bytes_eq [] [] = true
bytes_eq [] (y ∷ ys) = false
bytes_eq (x ∷ xs) [] = false
bytes_eq (x ∷ xs) (y ∷ ys) = nat_eq x y && bytes_eq xs ys

pub bytes_eq_iff : (a b : Bytes) → (bytes_eq a b ≡ true) ↔ (a ≡ b)
unfolding bytes_eq
bytes_eq_iff [] [] = ground arith
bytes_eq_iff [] (y ∷ ys) = ground arith
bytes_eq_iff (x ∷ xs) [] = ground arith
bytes_eq_iff (x ∷ xs) (y ∷ ys) = ground (arith, bytes_eq_iff xs ys)

pub bytes_eq_refl : (a : Bytes) → bytes_eq a a ≡ true
bytes_eq_refl a = (bytes_eq_iff a a).1 refl

-- `operator<` of std::string: the order by which a std::map keeps its keys.
unfoldable pub bytes_ltb : Bytes → Bytes → Bool
bytes_ltb xs [] = false
bytes_ltb [] (y ∷ ys) = true
bytes_ltb (x ∷ xs) (y ∷ ys) =
    let rest = bytes_ltb xs ys in if ltb x y then true else if ltb y x then false else rest

digits_fuel : ℕ → ℕ → Bytes → Bytes
digits_fuel zero n acc = acc
digits_fuel (suc f) n acc =
    let digit = (b'0' + n % 10) ∷ acc in
    let rest = digits_fuel f (n / 10) digit in if ltb n 10 then digit else rest

-- std::to_string of an `int`.
unfoldable pub to_string : ℤ → Bytes
unfolding digits_fuel
to_string (pos n) = digits_fuel (n + 1) n []
to_string (negsuc n) = b'-' ∷ digits_fuel (n + 2) (n + 1) []

to_string_tests :
    (to_string (pos 6004) ≡ txt "6004")
    × (to_string (negsuc 9) ≡ txt "-10")
    × (to_string (pos 0) ≡ txt "0")
unfolding to_string
to_string_tests = (refl, refl, refl)
