-- ===== src/Lib.antt =====
-- The transaction parser of the Stacks application for Ledger devices, app/rust/src. A host sends the
-- bytes of a transaction or of a message; the parser splits them, without copying, into the records
-- that the device shows and signs.
--
-- The parts, and the files that model them (paths of the program are below app/rust/src/parser):
--   error.rs                 Error: the error codes, and a result with a panic as a value
--   parser_common.rs         Common: versions, hash modes, addresses, names, assets
--   c32.rs                   C32Encoding: the text of an address
--   principal.rs             Principal: standard and contract principals
--   value.rs, value/         Value: Clarity values; Value.Len is the recursion that measures a value
--   post_condition.rs        PostCondition: a condition, its principal and its lines on the display
--   spending_condition.rs    Spending: signer, one signature, many signatures, the two together
--   transaction_auth.rs      Auth: a standard or a sponsored authorization
--   transaction_payload.rs   Payload: token transfers, contract calls, smart contracts, their lines
--   transaction.rs           Transaction: the conditions of a transaction, and the transaction;
--                            Transaction.Items are its lines, Transaction.PostConditions.Review is
--                            how the display turns through the lines of the conditions
--   message.rs, utils.rs     Message: a text message and the length before it
--   structured_msg.rs        StructuredMsg: a domain and a value to sign
--   jwt.rs                   Jwt: a JSON web token
--   parsed_obj.rs            ParsedObj: the one object that is parsed, of four kinds
--   ffi.rs                   Ffi: what the C part calls
--   ../zxformat.rs           Format: the writer of keys, numbers, and the pages of a value
--   ../bolos.rs              Device: the hash
-- `ParsedObj::read` tells the kind of the data and calls its parser. `Transaction::read` calls the
-- parsers of the authorization, of the post-conditions and of the payload one after the other; the
-- conditions and the arguments of a call are measured by `Value::value_len`. `get_item` goes the same
-- way down to the component that has the line, and its key and value are written by Format.
--
-- A type of the source is a record or a data type of the same name, a method is a function of the same
-- name in the module of its type, and a `match` of a long method is a function by clauses beside it.
-- Where a method changes its object, the function returns it. Buffers that are written are arguments
-- and results. The files whose names end in RoundTrip, Wire, Encoding or Fields hold an independent
-- description of the wire format, SIP-005, and the proofs that the code agrees with it; Lines and
-- Conditions hold an independent list of what the display shows.
--
-- Slices are lists of numbers; an index out of range, a division by zero and `apdu_unwrap` of an
-- error are `panic`. Sums of a `usize` that an input can bring to 2^32 are taken modulo 2^32, the
-- device's word, and sums of a `u8` modulo 2^8, since a release build has no overflow checks.
-- `Value.Len.value_len` has one unit of fuel for each byte and one more, since each call of the
-- recursion takes a byte (Value.Len.Total). The loops over the fields of a tuple have as much, since
-- each field takes a byte (Value.Tuple.Fuel, StructuredMsg.Fuel).
--
-- nom and arrayref are third-party code: they are the interface `Crates`, whose laws say what their
-- documentation says, and `Iterator`, of which only a run without a failure is known. nom's
-- `permutation` is `Permutation`, a function of the six parsers of a transaction, whose law is that
-- parsers that succeed in the order in which they are listed give what they give one after the other. The hash of the device, numtoa and hex are `Device`; base64 and serde-json-core
-- are `TokenCrates`, of which nothing is assumed. The setting of the expert mode is an argument.
-- The canary checks and the logging have no effect on a result. The numbers of the display are
-- written by core::fmt, as tests have it; the C library's function that the device calls in its
-- place is not in the Rust part.
--
-- Not modelled: `last_transaction_block` and `_last_block_ptr`, a difference of pointers; `validate`,
-- which only tests call; and the C and JavaScript parts.
pub mod Base
pub mod Error
pub mod Slice
pub mod Crates
pub mod Common
pub mod Principal
pub mod Value
pub mod PostCondition
pub mod Spending
pub mod Auth
pub mod Payload
pub mod Transaction
pub mod Format
pub mod Device
pub mod C32Encoding
pub mod StructuredMsg
pub mod Jwt
pub mod ParsedObj
pub mod Ffi
pub mod Message
pub mod Tests
