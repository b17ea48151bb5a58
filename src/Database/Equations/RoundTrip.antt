-- ===== src/Database/Equations/RoundTrip.antt =====
-- Equations with their variables between braces, and how they are read.
use fit_fred.Common.{
  ℕ, zero, suc, ◌+◌, ◌-◌, ◌≤◌, ◌≡◌, refl, arith, ok, Bytes, [], ◌∷◌, ◌++◌, some, List, length,
  length-append, All, ◌==◌, ◌||◌, false,
}
use fit_fred.Database.Equations.{
  open_brace, close_brace, until_brace, find_variables, without_braces, parse_equation,
}

-- A part of an equation: some text, or a variable.
pub data Part : Type 0 where
  text : Bytes → Part
  variable : Bytes → Part

abbrev pub body : Part → Bytes
body (text t) = t
body (variable v) = v

abbrev pub written : List Part → Bytes
written [] = []
written (text t ∷ parts) = t ++ written parts
written (variable v ∷ parts) = open_brace ∷ (v ++ (close_brace ∷ written parts))

-- The text without braces, and the variables.
abbrev pub plain : List Part → Bytes
plain [] = []
plain (part ∷ parts) = body part ++ plain parts

abbrev pub names_of : List Part → List Bytes
names_of [] = []
names_of (text t ∷ parts) = names_of parts
names_of (variable v ∷ parts) = v ∷ names_of parts

abbrev pub NoBrace : ℕ → Type 0
NoBrace c = (¬ (c ≡ open_brace)) × (¬ (c ≡ close_brace))

abbrev pub IsPart : Part → Type 0
IsPart part = All NoBrace (body part)

until_brace-append :
    (v rest : Bytes)
    → All NoBrace v
    → until_brace (v ++ (close_brace ∷ rest)) ≡ some (v, close_brace ∷ rest)
unfolding until_brace
until_brace-append [] rest h = refl
until_brace-append (c ∷ v) rest ((not_open, not_close), h) =
    let other : (c == close_brace) ≡ false = ground (arith, not_close) in
    rw (until_brace, other, until_brace-append v rest h)

find_variables-append :
    (t rest : Bytes) (fuel : ℕ)
    → All NoBrace t
    → length t + length rest ≤ fuel
    → find_variables fuel (t ++ rest) ≡ find_variables (fuel - length t) rest
unfolding find_variables
find_variables-append [] rest fuel h enough = let same : fuel - 0 ≡ fuel = omega arith in rw same
find_variables-append (c ∷ t) rest zero h enough = absurd (omega arith)
find_variables-append (c ∷ t) rest (suc fuel) ((not_open, not_close), h) enough =
    let other : (c == open_brace) ≡ false = ground (arith, not_open) in
    let left : suc fuel - suc (length t) ≡ fuel - length t = omega arith in
    rw (find_variables, other, left) (find_variables-append t rest fuel h (omega arith))

find_variables-written :
    (parts : List Part) (fuel : ℕ)
    → All IsPart parts
    → length (written parts) ≤ fuel
    → find_variables fuel (written parts) ≡ ok (names_of parts)
unfolding find_variables
find_variables-written [] zero h enough = refl
find_variables-written [] (suc fuel) h enough = refl
find_variables-written (text t ∷ parts) fuel (h, hs) enough =
    let sizes = length-append t (written parts) in
    rw (find_variables-append t (written parts) fuel h (omega arith))
      (find_variables-written parts (fuel - length t) hs (omega arith))
find_variables-written (variable v ∷ parts) zero (h, hs) enough = absurd (omega arith)
find_variables-written (variable v ∷ parts) (suc zero) (h, hs) enough =
    let sizes = length-append v (close_brace ∷ written parts) in absurd (omega arith)
find_variables-written (variable v ∷ parts) (suc (suc fuel)) (h, hs) enough =
    let sizes = length-append v (close_brace ∷ written parts) in
    rw (find_variables, until_brace-append v (written parts) h)
      (rw (find_variables-written parts fuel hs (omega arith)))

without_braces-append :
    (t rest : Bytes) → All NoBrace t → without_braces (t ++ rest) ≡ t ++ without_braces rest
unfolding without_braces
without_braces-append [] rest h = refl
without_braces-append (c ∷ t) rest ((not_open, not_close), h) =
    let other : ((c == open_brace) || (c == close_brace)) ≡ false =
      ground (arith, not_open, not_close) in
    rw (without_braces, other, without_braces-append t rest h)

without_braces-written :
    (parts : List Part) → All IsPart parts → without_braces (written parts) ≡ plain parts
unfolding without_braces
without_braces-written [] h = refl
without_braces-written (text t ∷ parts) (h, hs) =
    rw (without_braces-append t (written parts) h, without_braces-written parts hs)
without_braces-written (variable v ∷ parts) (h, hs) =
    rw (without_braces-append v (close_brace ∷ written parts) h)
      (rw (without_braces-written parts hs))

-- An equation that is written as texts and as variables between braces, none of which contains a
-- brace: it is parsed to the text without the braces and to the variables in their order.
pub parse_equation-written :
    (parts : List Part)
    → All IsPart parts
    → parse_equation (written parts)
      ≡ ok (record { equation = plain parts; variables = names_of parts })
unfolding parse_equation
parse_equation-written parts h = rw (
  find_variables-written parts (length (written parts)) h (omega arith),
  without_braces-written parts h,
)
