-- ===== src/Lib.antt =====
-- The fee market module of a Cosmos SDK chain (x/feemarket): a base gas price that follows the use of
-- the last blocks by the AIMD variant of EIP-1559, with the handlers that charge transactions by it.
--
-- The parts, and the files that model them:
--   Params      `Params` of x/feemarket/types/params.pb.go and types/params.go: `NewParams`, `ValidateBasic`
--               and `TargetBlockUtilization`.
--   State       `State` of types/genesis.pb.go and types/state.go: a window of the gas of the last blocks, an
--               index into it, the gas price and the learning rate. One definition for each method, by the
--               method's name; `next_learning_rate` and `next_base_gas_price` are the bodies whose panics
--               the two updates recover from. State/Market is the market as a step relation: a transaction
--               adds its gas, and the end of a block runs both updates and `IncrementHeight`; State/History has the
--               gas of the blocks as a list.
--   Keeper      keeper/keeper.go with types/keys.go, errors.go and resolver.go: getters and setters over the
--               store. Keeper/Market is keeper/feemarket.go and keeper/abci.go; Keeper/Genesis is
--               keeper/genesis.go, msg_server.go and query_server.go with types/genesis.go and msgs.go.
--   Ante, Post  the handlers before and after a transaction, ante/fee.go and post/fee.go.
--   Flow        a transaction through both handlers: the fee collector of the market, from the escrow of
--               ante/fee.go to what post/fee.go pays out.
--   Defaults    types/eip1559.go and types/eip1559_aimd.go.
--   Proto       the generated encoders and decoders of types/params.pb.go and types/genesis.pb.go: varints, the
--               fields of a message, and the fields that a message does not have; of types/tx.pb.go and
--               types/query.pb.go the messages, in Proto/Messages; and Size. Proto/Generated fills
--               with them the interface Codec, over which the keeper is modelled. Proto/Total and the files it
--               uses, Progress, Packing and Skipping, are about the turns of the loops of the decoders.
--   Api         the messages `Params`, `State`, `GenesisState`, `MsgParams` and `MsgParamsResponse` of
--               api/feemarket/feemarket/v1 (params.pulsar.go, genesis.pulsar.go and tx.pulsar.go): their
--               reflection (Api/Params, Api/State, Api/Genesis and Api/MsgParams), and size, marshal and
--               unmarshal (Methods below them). A message that another holds is in Api/Nested. Their loops that
--               read are those of Proto.
--   Module      module.go: the genesis as JSON, the blocks, and what the dependency injection builds.
-- A transaction passes `ante_handle`, which checks the fee by the stored price and escrows it; then
-- `post_handle`, which pays the fee and the tip out of the escrow and records the gas by `update`; and
-- `end_block` moves the price, the rate and the window. The message handler replaces the parameters.
--
-- How Go is modelled: a call ends in a value, an error or a panic (Prelude/Outcome); a call on a context is
-- a function from a context to such an end and a context (Prelude/Outcome/Action); a library call that
-- can only panic is an option (Prelude/Outcome/Partial). A uint64 is a natural number, with the sums that
-- can wrap reduced modulo 2 ^ 64; `int64(x)` of a uint64 keeps the bits. A slice that may be nil is an
-- option. The loops over a window end with it. The loops on
-- varints count the groups of seven bits: ten, as many as a uint64 has. The loops over the fields of a
-- message and over a packed window take a byte at least in each turn, so that they have as much fuel as
-- there are bytes. A Go slice has fewer than 2 ^ 48 elements, since the runtime allocates no more bytes.
--
-- What is a parameter, since it is not code of the repository: the decimals and integers of
-- cosmossdk.io/math (Math, with MathLaws for values, Compares for comparisons and NoOverflow for all calls
-- that return: the library also panics where a result is too wide, which NoOverflow sets aside); the SDK's
-- context, store, gas meter, coins, accounts and bank (Sdk, with StoreLaws, CoinLaws and BankLaws); the
-- bytes of a decimal and of a string (Wire, with WireLaws); the package runtime of the API module (Runtime,
-- with RuntimeLaws), and the package proto where it encodes a message that another holds (Options, with
-- OptionsLaws: it calls the functions of that message); and the JSON codec and addresses of the wiring
-- (Wiring). The keeper stands over an interface for the encoding of parameters and state (Codec, with
-- CodecLaws), which Proto fills.
-- Math/Fixed, Tests/Chain, Tests/Encoding and Tests/Wire are instances on which the laws hold.
--
-- What is not modelled: logging, except what its arguments evaluate; events; running out of gas in a read
-- or a write of the store, which StoreLaws exclude; memory that is too small for a window; the texts of
-- wrapped errors of the handlers. A query's pair of response and error is the end of its action. The
-- keeper's account keeper, codec and store key have no field of their own. Of the
-- API module the queries and the descriptors are left out, two messages that share a pointer, the reflection of
-- the response to `MsgParams`, which has no field, and `Truncate` of a list, which depends on the capacity
-- of a slice; of x/feemarket the two responses that hold gas prices, the registration of the module with
-- the SDK, the generated services and the command line.
pub mod Prelude
pub mod Math
pub mod Params
pub mod State
pub mod Sdk
pub mod Codec
pub mod Keeper
pub mod Module
pub mod Ante
pub mod Api
pub mod Post
pub mod Flow
pub mod Tests
pub mod Defaults
pub mod Proto
