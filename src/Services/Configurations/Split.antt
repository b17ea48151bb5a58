-- ===== src/Services/Configurations/Split.antt =====
-- How the rows of a configuration are divided up.
use fit_fred.Common.{
  ◌≡◌, refl, sym, ◌∙◌, subst, bytes_eq→, Bytes, codes, [], ◌∷◌, ◌++◌, append_assoc, append-nil,
  Option, none, some, List, if◌then◌else◌, false, bytes_eq, ◌||◌, Bool-cases, inl, inr,
}
use fit_fred.Common.Int.{ℤ}
use fit_fred.Database.Rows.{ConfigurationValue}
use fit_fred.WinCc.Request.Build.{write_electronic_request, append_to_request}
use fit_fred.Services.DelayChange.{delay_a, delay_c}
use fit_fred.Services.Configurations.{
  ConfigurationInfo, add_value, add_values, parse_configuration_info,
}

-- The lines of the rows that are no delays.
abbrev pub written_lines : List ConfigurationValue → Bytes
written_lines [] = []
written_lines (row ∷ rows) =
    (if bytes_eq row.name delay_a || bytes_eq row.name delay_c
      then []
      else write_electronic_request row.name row.value ++ codes "\n")
    ++ written_lines rows

-- The value of the last row with a name, or one from before.
abbrev pub last_value : Bytes → Option ℤ → List ConfigurationValue → Option ℤ
last_value name found [] = found
last_value name found (row ∷ rows) =
    last_value name (if bytes_eq row.name name then some row.value else found) rows

add_values-split :
    (rows : List ConfigurationValue) (info : ConfigurationInfo)
    → let result = add_values rows info in
      (result.name ≡ info.name)
      × (result.req ≡ info.req ++ written_lines rows)
      × (result.delay_a_value ≡ last_value delay_a info.delay_a_value rows)
      × (result.delay_c_value ≡ last_value delay_c info.delay_c_value rows)
unfolding add_values append_to_request
add_values-split [] info = (refl, sym (append-nil info.req), refl, refl)
add_values-split (row ∷ rows) info = elim (Bool-cases (bytes_eq row.name delay_a)) [
  | inl a ↦
      let other : bytes_eq row.name delay_c ≡ false =
        subst (λ n. bytes_eq n delay_c ≡ false) (sym (bytes_eq→ row.name delay_a a)) refl in
      let rest = add_values-split rows (record info { delay_a_value = some row.value }) in
      rw (add_values, add_value, a, other) rest
  | inr a ↦ elim (Bool-cases (bytes_eq row.name delay_c)) [
    | inl c ↦
        let rest = add_values-split rows (record info { delay_c_value = some row.value }) in
        rw (add_values, add_value, a, c) rest
    | inr c ↦
        let line = write_electronic_request row.name row.value in
        let (name, req, first, second) =
          add_values-split rows (record info { req = append_to_request info.req line }) in
        rw (add_values, add_value, a, c)
          (
            name,
            req ∙ append_assoc info.req (line ++ codes "\n") (written_lines rows),
            first,
            second,
          )
  ]
]

-- For any rows: the request of a configuration is one electronic write for each row that is no
-- delay, in the order of the rows, and each delay is the value of the last row with its name, if
-- there is one.
pub parse_configuration_info-split :
    (name : Bytes) (rows : List ConfigurationValue)
    → let info = parse_configuration_info name rows in
      (info.name ≡ name)
      × (info.req ≡ written_lines rows)
      × (info.delay_a_value ≡ last_value delay_a none rows)
      × (info.delay_c_value ≡ last_value delay_c none rows)
unfolding parse_configuration_info
parse_configuration_info-split name rows =
    add_values-split rows
      (record { name = name; req = []; delay_a_value = none; delay_c_value = none })
