-- ===== src/Tests/Broker.antt =====
-- Examples of the theorems on the requests of ConfigurationDatabaseBroker.
use fit_fred.Common.{◌≡◌, refl, ok, Bytes, codes, [], ◌∷◌, ◌++◌, List, if◌then◌else◌, true, inl}
use fit_fred.Common.Int.{ℤ}
use fit_fred.Utils.Decimal.{signed_decimal}
use fit_fred.Board.Defs.{Board, find, at, does_exist, calculate_electronic}
use fit_fred.Services.Requests.{get_all, comma, newline}
use fit_fred.Services.DatabaseBroker.{
  Query, insert_into, update_set, select_all, delete_from, Library, insert_parameter, find_board,
}
use fit_fred.Services.DatabaseBroker.Construct.{
  construct, insert_parameters, electronic_value, value_on_board, compute, within_limits, type_name,
}
use fit_fred.Services.DatabaseBroker.Execute.{Connection}
use fit_fred.Services.DatabaseBroker.Run.{Publication, not_connected, process_execution}
use fit_fred.Services.DatabaseBroker.Limits.{IsChange, construct-IsChange}
use fit_fred.Services.DatabaseBroker.Transaction.{Transaction, process_execution-Transaction}
use fit_fred.Tests.Fixtures.{platform, board, digit, texts}

abbrev values : List (Bytes × Bytes) → Bytes
values [] = []
values ((column, value) ∷ rest) = value ++ (32 ∷ values rest)

abbrev text_of : Query → Bytes
text_of (insert_into table columns) = codes "insert " ++ values columns
text_of (update_set table column conditions) = codes "update " ++ values (column ∷ conditions)
text_of (select_all table conditions) = codes "select * from " ++ table
text_of (delete_from table conditions) = codes "delete " ++ values conditions

abbrev library : Library ℤ
library = record { str = text_of; stod = digit; print_fixed = signed_decimal }

-- A database that keeps the updates, and forgets them when it is rolled back.
abbrev connection : Connection (List Bytes) Bytes
connection = record {
  is_connected = λ w. true;
  execute_query = λ w query. (w, true, []);
  execute_update = λ w query. (w ++ (query ∷ []), []);
  commit_update = λ w keep. if keep then w else [];
}

abbrev boards : List (Bytes × Board ℤ)
boards = (codes "TCM0", board) ∷ []

insertion :
    construct platform library boards (codes "RUN,TCM0,LEVEL,9") insert_parameter
    ≡ ok (codes "insert RUN TCM0 TCM LEVEL 9 ")
unfolding construct insert_parameters electronic_value value_on_board compute within_limits
    type_name find at does_exist calculate_electronic get_all find_board signed_decimal
insertion = refl

construct-IsChange_example :
    IsChange platform library boards insert_parameter
      (get_all comma (codes "RUN,TCM0,LEVEL,9"))
      (codes "insert RUN TCM0 TCM LEVEL 9 ")
construct-IsChange_example =
    construct-IsChange platform library boards (codes "RUN,TCM0,LEVEL,9") insert_parameter
      (codes "insert RUN TCM0 TCM LEVEL 9 ") (inl refl) insertion

abbrev request : Bytes
request = codes "INSERT CONFIGURATION_PARAMETERS,RUN,TCM0,LEVEL,9\n\nDROP,RUN"

process_execution-Transaction_example :
    let (end, published, exception) =
      process_execution platform texts connection library boards [] request in
    (own : List Publication) × (published
      ≡ (if connection.is_connected [] then [] else not_connected ∷ []) ++ own)
    × Transaction platform texts connection library boards []
        (get_all newline request)
        (end, own, exception)
process_execution-Transaction_example =
    process_execution-Transaction platform texts connection library boards [] 73
      (codes "NSERT CONFIGURATION_PARAMETERS,RUN,TCM0,LEVEL,9\n\nDROP,RUN")
