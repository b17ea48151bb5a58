-- ===== src/Board/Lookup.antt =====
-- Looking a parameter up by its name, and storing its values.
use fit_fred.Common.{
  ◌≡◌, sym, ok, or_throw-eq-ok, Bytes, [], ◌∷◌, Option, some, List, bytes_eq, bytes_eq→, Bool-cases,
  inl, inr,
}
use fit_fred.Board.Defs.{ParameterInfo, Board, find, at}

pub find-name :
    {Double : Type 0} (key : Bytes) (ps : List (ParameterInfo Double)) (p : ParameterInfo Double)
    → find key ps ≡ some p
    → p.name ≡ key
unfolding find
find-name key [] p h = cc
find-name key (q ∷ qs) p h = elim (Bool-cases (bytes_eq q.name key)) [
  | inl e ↦
      let here : ◌≡◌ {A = Option _} (some q) (some p) = rw (find, e) at h in
      let same : q ≡ p = cc in rw (sym same) (bytes_eq→ q.name key e)
  | inr e ↦ let rest : find key qs ≡ some p = rw (find, e) at h in find-name key qs p rest
]

pub at-find :
    {Double : Type 0} (b : Board Double) (key : Bytes) (p : ParameterInfo Double)
    → at b key ≡ ok p
    → (find key b.parameters ≡ some p) × (p.name ≡ key)
unfolding at
at-find b key p h =
    let found : find key b.parameters ≡ some p = or_throw-eq-ok _ _ h in
    (found, find-name key b.parameters p found)
