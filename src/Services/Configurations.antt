-- ===== src/Services/Configurations.antt =====
-- mapi/src/services/configurations/BoardConfigurations.cpp: the request that a stored configuration
-- is.
pub mod Split
pub mod Flag
pub mod Tcm
pub mod Pm
use fit_fred.Common.{
  Bytes, [], ◌∷◌, ◌++◌, Option, none, some, List, if◌then◌else◌, Bool, true, false, bytes_eq,
}
use fit_fred.Common.Int.{ℤ}
use fit_fred.Database.Rows.{ConfigurationValue}
use fit_fred.WinCc.Request.Build.{write_electronic_request, append_to_request}
use fit_fred.Services.DelayChange.{delay_a, delay_c}

-- `ConfigurationInfo`. A delay is kept as the whole number that it is made of.
pub record ConfigurationInfo : Type 0 where
  pub name : Bytes
  pub req : Bytes
  pub delay_a_value : Option ℤ
  pub delay_c_value : Option ℤ

-- One row: a delay, or a write at the end of the request.
add_value : ConfigurationValue → ConfigurationInfo → ConfigurationInfo
unfolding append_to_request write_electronic_request
add_value row info =
    if bytes_eq row.name delay_a
    then record info { delay_a_value = some row.value }
    else if bytes_eq row.name delay_c
    then record info { delay_c_value = some row.value }
    else record info {
      req = append_to_request info.req (write_electronic_request row.name row.value);
    }

add_values : List ConfigurationValue → ConfigurationInfo → ConfigurationInfo
unfolding add_value
add_values [] info = info
add_values (row ∷ rows) info = add_values rows (add_value row info)

unfoldable pub parse_configuration_info : Bytes → List ConfigurationValue → ConfigurationInfo
unfolding add_values
parse_configuration_info name rows =
    add_values rows (record { name = name; req = []; delay_a_value = none; delay_c_value = none })
