-- ===== src/Lib.antt =====
-- The JavaScript side of ultron's console: web3, as it stands in src/console/jsre/deps/web3.js, which
-- the console loads and which this repository has adapted to its own chain and units.
--
-- Parts, and how they meet
--   Text.antt, Text/Radix.antt, Text/Number.antt, Text/Slices.antt: JavaScript texts as lists of code
--     units, numerals in a base from 2 to 36, parseInt and the printing of numbers.
--   BigNumber.antt: the calls of bignumber.js that web3 makes, as a record, and what is documented
--     of them for integers; BigNumber/Integers.antt shows that the promises can be met.
--   Iban.antt: the module iban.js of web3.js (Iban, iso13616Prepare, mod9710). Its children prove the
--     checksum loop (Mod97), the check digits (Checksum), validity (Validity), the detection of a
--     mistyped character (Detection), the round trip of addresses (Direct), and the inputs on which
--     the loop does not end (Runaway).
--   Json.antt: JavaScript values of JSON, truth and properties. Dictionary.antt: objects used as
--     tables.
--   Rpc.antt: jsonrpc.js and errors.js (Jsonrpc.toPayload, toBatchPayload, isValidResponse).
--   Manager.antt: requestmanager.js. It takes its payloads from Rpc, and keeps polls in a Dictionary.
--     Reset is its reset. Its children prove the discipline of the timer (Invariant), the delivery of
--     replies (Replies), and what requests and polls (Sending) and resets (Resetting) do.
--   Abi.antt: solidity/type.js, the kinds of types and the coder's choice of a kind. Its children prove
--     what array names mean (Names) and which kind a name gets (Kinds).
--   Coder.antt: encode and decode of solidity/type.js, and solidity/coder.js. Encode writes the
--     params of a call, Decode reads them; Layout, Reading, Items, Arrays and Texts lead to the round
--     trip (RoundTrip) for the params of Params, and Disagreement is about where the two differ.
--   Utils.antt: utils.js, with child modules for addresses and their checksums (Address, Checksum)
--     and for units (Units, Conversion). Formatters.antt: solidity/param.js and
--     solidity/formatters.js; its children prove what becomes of integers in words (Numbers, Signed).
--   Value.antt: JavaScript values as methods get them, with functions and big numbers; Objects is about
--     their properties.
--   Messages.antt: web3/formatters.js, what becomes of arguments and results; Outputs is about
--     results, Laws and Addresses hold the theorems.
--   Method.antt: method.js, from the arguments of a call to its request and from the reply to the
--     callback; Convert turns values into JSON and back, Arguments holds the theorems.
--     Property.antt: property.js.
--   Methods.antt: the tables of methods of eth.js, db.js, shh.js, personal.js, swarm.js, net.js and
--     watches.js, and the properties of version, one child module for each; Calls holds the functions
--     that choose a name of the node, Tables what is true of every method.
--   Function.antt: function.js. Calls makes the requests, Payable is the test of a value, Attached the
--     names under which a contract has its functions; Data and Answer are about what is sent and
--     what comes back, Remote joins the two, and Sending is about transactions.
--   Event.antt: event.js; Execute makes a filter of an event, Arguments is about what it reads from a
--     log. Event/AllEvents.antt: allevents.js.
--   Ipc.antt: ipcprovider.js. Chunks takes apart what arrives, Pending and Runs count the callbacks
--     that are called and wait, and Stuck is about a chunk that is no JSON.
--   Http.antt: httpprovider.js; Repeated is about a request that runs out of time.
--   Batch.antt: batch.js; Delivery proves which callbacks are called with what.
--   Filter.antt: filter.js; Options is about the options of the page, Answers about what the page is
--     told, Returned about logs that are asked without a callback, and Lifetime proves when a filter
--     is polled.
--   Syncing.antt: syncing.js; Notices is about whom it tells.
--   Transfer.antt: transfer.js, which reads an Iban and sends a transaction by a method; Institutions
--     is about the transfers that are deposits.
--   A method gives its payload to Rpc through Manager, a batch gives its payloads to Manager at once,
--   and a filter calls the methods of Methods and keeps its poll in the manager. A function of a
--   contract encodes its arguments by Coder and calls the methods of Methods; an event does so for
--   the topics of its filter. Ipc and Http carry payloads, and tell replies as Manager takes them.
--
-- State and operations
--   An Iban is its text. The state of the request manager holds the fields of RequestManager, the
--   counter of Jsonrpc, and the timers that run; each method is a function to the new state, with
--   what it sends and the callbacks that it makes as values. A callback is a number. The reply to an
--   asynchronous request is a function of its own, which gets the state at the time of the reply. A
--   method, a property, a batch and a filter are records with the fields of the source. An exception
--   of a formatter is `none`, and a refused call is an error value. What a callback does itself is a
--   parameter where the code depends on it: whether it throws (Ipc), what it makes of the callbacks of
--   its filter (Filter/Answers), and what uninstalling a poll does (Manager/Reset).
--
-- Bounds and fuel
--   The loop of mod9710 takes fuel: one unit for each character of its text is enough where the text
--   is of digits, and the theorems on Iban state the fuel from the length of the number.
--   encode, encodeWithOffset and decode take a unit of fuel for each pair of brackets of a type and
--   one for its name, which depth_of gives; each round takes off one pair.
--   All other functions recurse on lists of characters, arguments, requests or messages.
--
-- Not modelled
--   crypto-js, utf8, bignumber.js and xhr2 are other projects' libraries inside web3.js; sha3,
--   the encoding of utf8, JSON.parse, JSON.stringify, isFinite, the sockets and the requests over
--   HTTP are parameters. Letters change case as in ASCII. A number is an integer, and the keys of an
--   object stand in the order in which they were set. Above 2 ^ 53 numbers stay exact, and the
--   offsets of arrays nested three deep, which come from a text, are no numbers. The contract itself
--   and the places of its events in it, namereg.js, extend.js, the facade web3.js, the contracts that
--   a transfer asks, and the objects on which methods
--   are attached are left out. The Go code of the node, which drives tendermint and go-ethereum,
--   stands outside this development.
pub mod Abi
pub mod Batch
pub mod BigNumber
pub mod Coder
pub mod Dictionary
pub mod Event
pub mod Filter
pub mod Formatters
pub mod Function
pub mod Http
pub mod Iban
pub mod Ipc
pub mod Json
pub mod Manager
pub mod Messages
pub mod Method
pub mod Methods
pub mod Prelude
pub mod Property
pub mod Rpc
pub mod Syncing
pub mod Text
pub mod Transfer
pub mod Utils
pub mod Value
