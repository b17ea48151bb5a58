-- ===== src/Services/DatabaseBroker/Text.antt =====
-- The changes that a selection of versions makes to the text of its query.
use fit_fred.Common.{
  ℕ, Fallible, ok, err, ◌>>=◌, or_throw, Bytes, codes, [], ◌∷◌, ◌++◌, Option, none, some, length,
  take, drop, if◌then◌else◌, Bool, true, false, ◌==◌,
}
use fit_fred.Services.DatabaseBroker.{Refusal, out_of_range, parameters_table}

abbrev pub star : ℕ
star = 42

-- `std::string::find` of a text that is not empty: what is in front of the first place where it
-- starts, and the rest from there on.
abbrev pub starts_with : Bytes → Bytes → Bool
starts_with [] s = true
starts_with (a ∷ needle) [] = false
starts_with (a ∷ needle) (c ∷ s) = if c == a then starts_with needle s else false

abbrev pub in_front : ℕ → Option (Bytes × Bytes) → Option (Bytes × Bytes)
in_front c none = none
in_front c (some (front, rest)) = some (c ∷ front, rest)

unfoldable pub split_before : Bytes → Bytes → Option (Bytes × Bytes)
split_before needle [] = none
split_before needle (c ∷ s) =
    let later = in_front c (split_before needle s) in
    if starts_with needle (c ∷ s) then some ([], c ∷ s) else later

-- `versions`, and the query with the columns of the versions. A text without a star makes `insert`
-- throw, and so does a `where` at the start.
unfoldable pub versions : Bytes → Bytes
versions start_date =
    codes " VERSIONS BETWEEN timestamp to_timestamp('"
    ++ (start_date ++ codes "') and SYSTIMESTAMP ")

abbrev pub version_columns : Bytes
version_columns = codes "VERSIONS_STARTTIME,VERSIONS_ENDTIME,VERSIONS_OPERATION"

-- `queryStr.insert(queryStr.find("*"), ...)`.
unfoldable pub qualify_star : Bytes → Fallible Refusal Bytes
unfolding split_before
qualify_star text = do
  parts ← or_throw (split_before (star ∷ []) text) out_of_range
  ok (parts.0 ++ (codes " " ++ (parameters_table ++ (codes "." ++ parts.1))))

-- `queryStr.insert(queryStr.find("*") + 1, ...)`.
unfoldable pub add_columns : Bytes → Fallible Refusal Bytes
unfolding split_before
add_columns text = do
  parts ← or_throw (split_before (star ∷ []) text) out_of_range
  ok (parts.0 ++ (star ∷ (codes "," ++ (version_columns ++ drop 1 parts.1))))

-- One position in front of `where`, or at the end.
insert_version : Bytes → Bytes → Option (Bytes × Bytes) → Fallible Refusal Bytes
insert_version version text none = ok (text ++ version)
insert_version version text (some ([], rest)) = err out_of_range
insert_version version text (some (c ∷ front, rest)) =
    let before = length front in
    ok (take before (c ∷ front) ++ (version ++ (drop before (c ∷ front) ++ rest)))

unfoldable pub with_versions : Bytes → Bytes → Fallible Refusal Bytes
unfolding qualify_star add_columns insert_version versions split_before
with_versions start_date text = do
  qualified ← qualify_star text
  widened ← add_columns qualified
  insert_version (versions start_date) widened (split_before (codes "where") widened)
