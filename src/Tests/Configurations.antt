-- ===== src/Tests/Configurations.antt =====
-- Examples of the theorems on the services of the configurations.
use fit_fred.Common.{◌≡◌, refl, ok, Bytes, codes, [], ◌∷◌, none, some, List, is_empty, not, ◌⊎◌}
use fit_fred.Common.Int.{ℤ, pos}
use fit_fred.Board.Defs.{find_variable}
use fit_fred.Handler.Defs.{Handler}
use fit_fred.Handler.Receive.{Outcome}
use fit_fred.Services.Exchange.{Alf}
use fit_fred.Services.ResetFee.Identity.{get_environment}
use fit_fred.Services.Configurations.{ConfigurationInfo}
use fit_fred.Services.Configurations.Tcm.{apply_configuration}
use fit_fred.Services.Configurations.Tcm.Applied.{Configured, apply_configuration-Configured}
use fit_fred.Services.Configurations.Pm.{
  Input, sequence, process_input_message, process_output_message,
}
use fit_fred.Services.Configurations.Pm.Marked.{IsRefused, Shows, exchange-Shows}
use fit_fred.Tests.Fixtures.{platform, board, signed_byte, handler}

-- An electronics that keeps what it is sent, and answers that it was a success.
abbrev alf : Alf (List Bytes)
alf w text = (text ∷ w, codes "success\n0\n")

-- A TCM with its two delays.
abbrev tcm_handler : Handler ℤ
tcm_handler = record handler {
  board = record board {
    parameters =
        record signed_byte { name = codes "DELAY_A" }
        ∷ record signed_byte { name = codes "DELAY_C"; base_address = 17 }
        ∷ [];
  };
}

abbrev info : ConfigurationInfo
info = record {
  name = codes "RUN";
  req = codes "LEVEL,WRITE_ELECTRONIC,5\n";
  delay_a_value = some (pos 7);
  delay_c_value = none;
}

apply_configuration-Configured_example :
    Configured platform alf [] tcm_handler info
      (apply_configuration platform alf [] tcm_handler info)
apply_configuration-Configured_example =
    apply_configuration-Configured platform alf [] tcm_handler info

-- A PM whose service has its variable.
abbrev pm_handler : Handler ℤ
pm_handler = record handler {
  board = record board {
    environment = some (record { name = codes "PMA0_CONFIGURATIONS"; value = pos 0 } ∷ []);
  };
}

idle : Shows platform pm_handler (codes "PMA0_CONFIGURATIONS") (pos 0)
unfolding get_environment find_variable
idle = refl

exchange-Shows_example :
    let service = codes "PMA0_CONFIGURATIONS" in
    let first =
      process_input_message platform pm_handler service
        (codes "RUN")
        (ok (record { name = codes "LEVEL"; value = pos 9 } ∷ [])) in
    let second = process_output_message platform first.0 service (codes "success\n0\n") in
    ((text : Bytes) × (out : Outcome ℤ) × (first.1 ≡ ok (sequence text))
      × Shows platform first.0 service (pos 1)
      × (second.1 ≡ ok (out, not (is_empty out.report)))
      × Shows platform second.0 service (pos 0))
    ⊎ ((e : Input) × (first.1 ≡ ok e) × IsRefused e × Shows platform first.0 service (pos 0))
exchange-Shows_example =
    exchange-Shows platform pm_handler (codes "PMA0_CONFIGURATIONS") (codes "RUN")
      (ok (record { name = codes "LEVEL"; value = pos 9 } ∷ [])) (codes "success\n0\n") (pos 0) idle
