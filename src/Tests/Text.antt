-- ===== src/Tests/Text.antt =====
-- A text as the list of its characters' numbers, and back.
use Prim.Native.Char.{Char, char, code, IsScalar}
use Prim.Native.Nat.{compare, Ordering}
use Prim.Native.String as S
use text.Mathlib.TextEquality.{codes_equal}
use feemarket.Prelude.{ℕ, ◌≡◌, refl, ap, String, Option, none, some, List, [], ◌∷◌, arith}

-- The character of a number, if the orders of the number among the bounds of the scalar values allow.
abbrev of_orders :
    (n : ℕ) (a b c : Ordering)
    → compare n 55296 ≡ a
    → compare 57343 n ≡ b
    → compare n 1114112 ≡ c
    → Option Char
of_orders n Ordering.lt b c e f g = some (char n (rw e tt))
of_orders n Ordering.eq Ordering.lt Ordering.lt e f g = some (char n (rw (e, f, g) tt))
of_orders n Ordering.gt Ordering.lt Ordering.lt e f g = some (char n (rw (e, f, g) tt))
of_orders n _ _ _ e f g = none

abbrev of_code : ℕ → Option Char
of_code n = of_orders n (compare n 55296) (compare 57343 n) (compare n 1114112) refl refl refl

same : (n : ℕ) → compare n n ≡ Ordering.eq
same n = ground arith

same_code : (n : ℕ) (p q : IsScalar n) → char n p ≡ char n q
same_code n p q = codes_equal (char n p) (char n q) (same n)

of_orders-code :
    (n : ℕ) (p : IsScalar n) (a b c : Ordering) (e : compare n 55296 ≡ a) (f : compare 57343 n ≡ b)
    (g : compare n 1114112 ≡ c)
    → of_orders n a b c e f g ≡ some (char n p)
of_orders-code n p Ordering.lt b c e f g = ap some (same_code n _ p)
of_orders-code n p Ordering.eq Ordering.lt Ordering.lt e f g = ap some (same_code n _ p)
of_orders-code n p Ordering.eq Ordering.lt Ordering.eq e f g = absurd (rw (e, f, g) at p)
of_orders-code n p Ordering.eq Ordering.lt Ordering.gt e f g = absurd (rw (e, f, g) at p)
of_orders-code n p Ordering.eq Ordering.eq c e f g = absurd (rw (e, f) at p)
of_orders-code n p Ordering.eq Ordering.gt c e f g = absurd (rw (e, f) at p)
of_orders-code n p Ordering.gt Ordering.lt Ordering.lt e f g = ap some (same_code n _ p)
of_orders-code n p Ordering.gt Ordering.lt Ordering.eq e f g = absurd (rw (e, f, g) at p)
of_orders-code n p Ordering.gt Ordering.lt Ordering.gt e f g = absurd (rw (e, f, g) at p)
of_orders-code n p Ordering.gt Ordering.eq c e f g = absurd (rw (e, f) at p)
of_orders-code n p Ordering.gt Ordering.gt c e f g = absurd (rw (e, f) at p)

of_code-code : (c : Char) → of_code (code c) ≡ some c
of_code-code (char n p) = of_orders-code n p _ _ _ refl refl refl

abbrev pub codes : String → List ℕ
codes S.[] = []
codes (S.◌∷◌ c s) = code c ∷ codes s

-- A character before a text, if both are there.
abbrev before : Option Char → Option String → Option String
before (some c) (some s) = some (S.◌∷◌ c s)
before _ _ = none

abbrev pub of_codes : List ℕ → Option String
of_codes [] = some S.[]
of_codes (n ∷ ns) = before (of_code n) (of_codes ns)

pub of_codes-codes : (s : String) → of_codes (codes s) ≡ some s
of_codes-codes S.[] = refl
of_codes-codes (S.◌∷◌ c s) = rw (of_code-code c, of_codes-codes s) refl
