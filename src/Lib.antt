-- ===== src/Lib.antt =====
-- The pallets of the can-bus chain: staking of stable tokens, the bridge to other chains, the
-- transfers over it, and the minting of the native token.
--
-- Base and its children hold the shared notation: Boolean tests, lists, words of a fixed number
-- of bits. Frame holds what the pallets use of the framework: an action on the storage of a
-- pallet that returns a value or an error (Call), storage maps as functions (Storage), the
-- errors of all pallets (Error), and two parameters: the token pallets (Tokens) and the
-- fixed-point fraction (Perquintill), with the documented laws that some theorems assume.
--
-- The parts, each a tree of modules:
--   - Staking is pallets/stable-staking/src/lib.rs. State is its storage, events and configuration;
--     Info the positions (`StakingInfo`) with their weights; Epoch the epochs of a pool; Pending the
--     queue of stakes that wait for their epoch; Claim the payment of rewards and the withdrawal;
--     Calls the dispatchable calls, and the hook; Ledger what an outsider sees: who has how much active
--     and waiting in each pool, and the steps that the calls are allowed to make on it; Solvency what the
--     pallet owes to pools and users and holds for them, over histories of calls and blocks.
--   - Bridge is pallets/bridge/src/lib.rs. Votes is `ProposalVotes`; Relayers the administration and
--     the signals of transfers; Proposals voting and execution; Resource `derive_resource_id`; Calls the
--     dispatchable calls, and the hook; History sequences of calls, blocks and what other pallets do.
--   - Handler is pallets/assets-handler/src/lib.rs, the implementation of `BridgeHandler`.
--   - Transfer is pallets/bridge-transfer/src/lib.rs. Its storage is the bridge's with the handler's
--     inside, so that a transfer is one action on both.
--   - Mint is pallets/halving-mint/src/lib.rs; Supply bounds what the hook mints, History adds the calls.
--   - Precompile holds the contracts' side: Host is the EVM as the precompiles see it, with its laws;
--     Erc20 is precompiles/assets-erc20/src/lib.rs, over the operations of pallet_assets; Staking is
--     precompiles/stable-staking/src/lib.rs and Bridge precompiles/bridge-transfer/src/lib.rs, over the
--     pallets' models.
--   - Template is pallets/template/src/lib.rs and precompiles/template/src/lib.rs.
--   - Runtime is what runtime/src/lib.rs and runtime/src/precompiles.rs compute: the addresses of
--     assets, the filter of the dispatch precompile, the configurations of the mint and of staking, which
--     share the account that native rewards are minted to and paid from; and, in Crossing, the bridge with
--     the calls that approved proposals dispatch: transfers in, the bridge's own calls, nested up to a depth
--     that stands for the limit of the framework's decoder, and those of other pallets, a parameter.
--   - Tests runs the theorems on concrete states, with token pallets and a host that obey the laws.
--
-- Accounts, pools, assets, chains and proposals are numbers. A block number has 32 bits and a
-- balance 128, as runtime/src/lib.rs sets them; checked, saturating and unchecked arithmetic are
-- written out. What a call wrote before it failed stays written, as in the source, unless the
-- call is transactional; `dispatch` undoes a failing call as the framework does. A dispatched
-- proposal may run any call, and is an action that the configuration gives. Loops are recursion
-- on the list or on the number of rounds, so that no fuel is needed. The runtime's
-- administrative origins are all the root origin.
--
-- The EVM stands outside the repository, and so do its gas, its logs and the undoing of a method
-- that fails: a handle is a state with a view, and the laws of the host say what each of its
-- operations does to the view. An address of the EVM and a U256 are numbers; an asset's address
-- is its 20 bytes where they matter.
--
-- Weights, benchmarks, mocks and tests, the rest of the runtime's configuration and the node are
-- not modelled: they only configure or call what is, or stand outside these parts.
pub mod Base
pub mod Frame
pub mod Staking
pub mod Bridge
pub mod Handler
pub mod Transfer
pub mod Mint
pub mod Precompile
pub mod Template
pub mod Runtime
pub mod Tests
