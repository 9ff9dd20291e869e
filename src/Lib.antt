-- ===== src/Lib.antt =====
-- Verification of xrpl-go, the Go SDK for the XRP Ledger.
--
-- The program's core is two codecs. binary-codec turns a transaction's JSON into the ledger's binary
-- form and back: codec.go filters the fields and adds the prefixes for signing, `types` turns objects
-- and values into bytes, `Definitions` knows the fields, `serdes` writes and reads field identifiers,
-- length prefixes and values. address-codec turns account IDs, seeds and public keys into Base58 texts with
-- a checksum and back. Both use pkg/hexutil. The clients submit a transaction and wait for its result:
-- finality.go decides when that wait is over.
--
-- Files and the code they are about:
--   Base            shared names, numbers, integers, words, digits, maps as association lists
--   Hexutil         pkg/hexutil/hexutil.go, with encoding/hex written out
--   Definitions     binary-codec/definitions: loadDefinitions and the lookups of helpers.go
--     Names, Rows, Permissions: what a loaded document answers
--   Serdes          binary-codec/serdes: Parser (binary_parser.go), Serializer
--                   (binary_serializer.go), FieldId (field_id_codec.go), Errors
--     Bytes, Length, Shape, Header, Field: the parser against the serializer
--   Address         address-codec: Alphabet, Utf8 (how Go ranges over a string), Base58 (base58.go),
--                   Check (base58check.go), Codec (codec.go), XAddress (x_codec.go, address.go)
--   Number          binary-codec/types/st_number.go: Parse, Normalize, Codec (FromJSON), Text (ToJSON)
--     Cut, Rounding, Scaling, Exact, Scientific: what normalizing and writing keep
--   Types           binary-codec/types: Value (Go's `any`), Reader (a ToJSON on the parser), Law (what a
--                   type reads back), Integers, Hash, Issue (the codecs of single values), Fields and
--                   StObject (st_object.go, st_array.go), Registry (GetSerializedType), Amount
--                   (amount.go) with the round trips of XRP in Amount/Xrp and of tokens in Amount/Token
--     StObject/Order, Unordered, Layout, Rounds, ReadBack: what an object's bytes are, and how they are read
--     Readable, Scalar, Uint64, Named, Argument, Elements, Decodable, Depth: which fields are read
--       back, and how deep; Unreadable: two that are not
--   Codec           binary-codec/codec.go: Encode and Decode; Payloads, the encodings for
--                   signing; LedgerData, ledger_data.go
--     RoundTrip, Signing, Signers: Decode after Encode, and what is signed
--   Finality        xrpl/internal/client/finality.go: the wait for a validated transaction
--     Steps, Results, Bounded, Preliminary: a step relation, what ends the wait and when it must
--   Tests           examples at concrete inputs
--
-- Correspondence. A byte is a number below 256 and a Go string of address-codec is its bytes. The
-- parser's state is the data left and the serializer's its sink: each method takes the state and
-- gives the new one, with its error where it has one. A map is an association list, and a loop over
-- a map visits it in the order of the list. A function that returns an error gives a `Result`, or in
-- Address an `Outcome`, in which `panicked` is a run-time panic. Fixed-width arithmetic keeps its
-- wrap-around. A `big.Int` is a natural number in Address and an integer in Number.
--
-- Loops that do not follow a list run on fuel: encode_loop and append_digits of Base58 on the number
-- itself, which every division makes smaller; decode_loop on the length of the text, of which each
-- round uses a part; scale_up of Number on 18, which brings any number above 0 to 10^18, scale_down and
-- strip_zeros on the number itself. `stuck` and `out_of_fuel` are the values for a loop of Address that
-- would need more.
-- `unspecified_exponent` of Number stands for a text whose exponent is no int64: the documentation of
-- big.Int does not say what Int64 gives then.
--
-- An object may hold objects, and `GetSerializedType` one type for all of them: the types stand on a
-- depth, which is the number of objects that may stand in one another, and its readers on a number of
-- rounds, each of which reads a field identifier. `out_of_fuel` is the error where either is used up.
--
-- A JSON value is one of the Go types that the codecs switch on. A `map[FieldInstance]any` is the list of
-- its fields in the order of the loop that made it. The codec of path sets is an argument, and so is
-- that of issued amounts in Amount.
--
-- WaitForFinality polls until its context ends; its model takes the list of the rounds that have come
-- so far, each with the answers of the hooks and of the context, and `waiting` says that it goes on.
--
-- SHA-256 and RIPEMD-160 are parameters (Address.Hash) with the sizes of their digests. The decoding
-- of definitions.json into rows is left to the JSON library, and the rows are an argument.
--
-- Not modelled: issued amounts, path sets and qualities of binary-codec, the rest of the network
-- clients, the structs of transactions and queries, the elliptic curves, and confidential, which calls
-- a C library.
pub mod Base
pub mod Hexutil
pub mod Address
pub mod Definitions
pub mod Serdes
pub mod Types
pub mod Codec
pub mod Tests
pub mod Finality
pub mod Number
