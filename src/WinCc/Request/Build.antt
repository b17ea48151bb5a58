-- ===== src/WinCc/Request/Build.antt =====
-- The requests that the services themselves make: `WinCCRequest::writeRequest` and the like.
use fit_fred.Common.{ℕ, Bytes, codes, ◌++◌}
use fit_fred.Common.Int.{ℤ}
use fit_fred.Utils.Decimal.{decimal, signed_decimal}

-- `writeRequest` of an unsigned number.
unfoldable pub write_request : Bytes → ℕ → Bytes
unfolding decimal
write_request param value = param ++ (codes ",WRITE," ++ decimal value)

unfoldable pub write_electronic_request : Bytes → ℤ → Bytes
unfolding signed_decimal
write_electronic_request param value = param ++ (codes ",WRITE_ELECTRONIC," ++ signed_decimal value)

unfoldable pub read_request : Bytes → Bytes
read_request param = param ++ codes ",READ"

unfoldable pub append_to_request : Bytes → Bytes → Bytes
append_to_request message request = message ++ (request ++ codes "\n")
