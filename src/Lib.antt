-- ===== src/Lib.antt =====
-- The MAPI of the FIT FRED: it turns the requests that WinCC sends for the parameters of a board into
-- sequences of SWT frames for ALF, and ALF's answers into values of the parameters.
--
-- How the parts work together: a service (mapi/src/services) receives a request, which WinCCRequest
-- splits into commands. BoardCommunicationHandler looks each command's parameter up on its Board, makes
-- one SWT operation for each register and remembers which parameters wait for the register's word. The
-- operations become the text of an SwtSequence, which ALF executes. AlfResponseParser iterates over the
-- lines of the answer; the handler cuts the field of each parameter out of the word, decodes it, computes
-- the physical value, stores it on the board, and compares it with what was written.
--
-- The files, and the code that they are about:
--   Common, Common/...      shared: tests, lists of bytes, results, signed integers, maps.
--   Bits, Bits/...          binary digits of numbers, for reasoning about masks.
--   Utils, Utils/...        getBitField, twosComplementEncode and twosComplementDecode
--                           (mapi/include/utils/utils.h); Gbt is mapi/src/utils/gbtInterfaceUtils.cpp.
--   Swt, Swt/...            SwtSequence (mapi/src/communication-utils/SwtSequence.cpp): `create_and_mask`,
--                           `word_to_hex`, `add_operation`, `sequence`.
--   Alf, Alf/...            AlfResponseParser (mapi/src/communication-utils/AlfResponseParser.cpp). An
--                           `Iterator` is the rest of the answer with its offset; `lines` is the range-for
--                           loop from `begin` to `end`.
--   WinCc, WinCc/...        WinCCRequest (mapi/src/communication-utils/WinCCRequest.cpp).
--   Board, Board/...        Board and ParameterInfo (mapi/src/board/Board.cpp), EnvironmentVariables
--                           (mapi/src/board/EnvironmentVariables.cpp).
--   Database, Database/...  the columns and rows of the database (mapi/src/database/Columns.cpp,
--                           DatabaseViews.cpp): `parse_equation`, `parameter_row` and the like.
--   FitData, FitData/...    FitData (mapi/src/board/FitData.cpp): Parameters makes boards of templates,
--                           Devices gives them their addresses, Histograms and Environment read the
--                           other tables.
--   Handler, Handler/...    BoardCommunicationHandler (mapi/src/board/BoardCommunicationHandler.cpp): Send
--                           is processMessageFromWinCC, Receive is processMessageFromALF, Fifo is
--                           createReadFifoRequest and parseFifo.
--   Services, Services/...  CounterRates (mapi/src/services/CounterRates.cpp), DelayChange
--                           (mapi/src/utils/DelayChange.cpp), BlockRead and Exchange for
--                           BasicFitIndefiniteMapi, the request queue and the waiting loop of
--                           LoopingFitIndefiniteMapi (mapi/src/services/templates), Splitter (mapi/include/utils/utils.h).
--                           In Services, Chain is the way in which the services send requests one after
--                           the other, Histograms is mapi/src/services/histograms, Resets is Reset.cpp
--                           and ResetErrors.cpp, ResetFee is ResetFEE.cpp, BoardStatus is
--                           BoardStatus.cpp, and DelayChange/Apply is SetPhaseDelay.cpp. Configurations
--                           and DatabaseBroker are mapi/src/services/configurations: the services that
--                           apply a stored configuration to the TCM (Tcm) and to a PM (Pm), and
--                           ConfigurationDatabaseBroker, which changes what is stored.
--   Platform                what is taken from outside of the repository, as parameters.
--   Tests, Tests/...        a small board, and runs of the theorems.
--
-- State is passed explicitly: `Handler` holds the board and the two maps of the C++ object, `Counters`
-- the members of CounterRates, `PmHistograms`, `Fee` and `BoardStatus` those of the services of these
-- names. What a service sends goes through `executeAlfSequence`, which is a function on a world of any
-- type; the calls of the database are functions on a world too. An exception is the `err` of a
-- `Fallible`, with one constructor for each throw. Machine words are natural numbers with their
-- remainder written out. What C++ does not define, such as an access out of a vector's bounds, is an
-- `err` of its own where the code can come to it, or has a value that the definition's comment names.
--
-- Loops are recursion on the list that they walk over. The loop over the lines of an answer runs on fuel,
-- one round more than the answer has bytes, since each round but the last moves the iterator forward.
--
-- Not modelled: `double` and its text formats, the calculator and splitString of the FRED core, and the
-- order of a walk over a hash map, which are fields of `Platform`; what the electronics does to a
-- register on a write, which is a parameter with the laws that the code relies on; the fields of the
-- database, which are the parameter `Database`, and its connection; the SQL text that the copy of the
-- library sql-builder (mapi/include/database/sql.h) makes of a query, which is the parameter `Library`;
-- how a stream writes the numbers of a readout, which is the parameter `Formats`; the order in which equal elements are sorted; the services that are not named above, sleeping and
-- printing.
mod Common
pub mod Bits
pub mod Utils
pub mod Swt
pub mod Alf
pub mod Platform
pub mod Board
pub mod WinCc
pub mod Database
pub mod FitData
pub mod Handler
pub mod Services
pub mod Tests
