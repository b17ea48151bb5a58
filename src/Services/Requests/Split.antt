-- ===== src/Services/Requests/Split.antt =====
-- Tokens that are joined by a delimiter, and `Splitter::getAll` of the text.
use fit_fred.Common.{
  ℕ, ◌≡◌, refl, ap, arith, Bytes, [], ◌∷◌, ◌++◌, append-nil, append_assoc, List, ◌==◌, ==_iff, Bool,
  true, false, All,
}
use fit_fred.Services.Requests.{split, get_all}

abbrev pub joined : ℕ → List Bytes → Bytes
joined delimiter [] = []
joined delimiter (token ∷ []) = token
joined delimiter (token ∷ next ∷ tokens) = token ++ (delimiter ∷ joined delimiter (next ∷ tokens))

-- The last token is not empty.
abbrev pub EndsFull : List Bytes → Type 0
EndsFull [] = Unit
EndsFull (token ∷ []) = ¬ (token ≡ [])
EndsFull (token ∷ next ∷ tokens) = EndsFull (next ∷ tokens)

abbrev pub IsFree : ℕ → Bytes → Type 0
IsFree delimiter token = All (λ c. ¬ (c ≡ delimiter)) token

split-token :
    (delimiter : ℕ) (done token rest : Bytes) (started : Bool)
    → IsFree delimiter token
    → split delimiter done started (token ++ (delimiter ∷ rest))
      ≡ (done ++ token) ∷ split delimiter [] false rest
unfolding split
split-token delimiter done [] rest started free =
    let same : (delimiter == delimiter) ≡ true = (==_iff delimiter delimiter).1 refl in
    rw (split, same, append-nil done)
split-token delimiter done (c ∷ token) rest started (other, free) =
    let differs : (c == delimiter) ≡ false = ground (arith, other) in
    rw (split, differs, split-token delimiter (done ++ (c ∷ [])) token rest true free)
      (rw (append_assoc done (c ∷ []) token))

split-last :
    (delimiter : ℕ) (done token : Bytes)
    → IsFree delimiter token
    → split delimiter done true token ≡ (done ++ token) ∷ []
unfolding split
split-last delimiter done [] free = rw (append-nil done)
split-last delimiter done (c ∷ token) (other, free) =
    let differs : (c == delimiter) ≡ false = ground (arith, other) in
    rw (split, differs, split-last delimiter (done ++ (c ∷ [])) token free)
      (rw (append_assoc done (c ∷ []) token))

-- Tokens without the delimiter, of which the last is not empty: `getAll` of the tokens joined by the
-- delimiter returns them.
pub get_all-joined :
    (delimiter : ℕ) (tokens : List Bytes)
    → All (IsFree delimiter) tokens
    → EndsFull tokens
    → get_all delimiter (joined delimiter tokens) ≡ tokens
unfolding get_all split
get_all-joined delimiter [] free full = refl
get_all-joined delimiter ([] ∷ []) free full = absurd (full refl)
get_all-joined delimiter ((c ∷ token) ∷ []) ((other, free), _) full =
    let differs : (c == delimiter) ≡ false = ground (arith, other) in
    rw (get_all, split, differs) (split-last delimiter (c ∷ []) token free)
get_all-joined delimiter (token ∷ next ∷ tokens) (free, frees) full =
    rw (get_all, split-token delimiter [] token (joined delimiter (next ∷ tokens)) false free)
      (ap (λ r. token ∷ r) (get_all-joined delimiter (next ∷ tokens) frees full))
