-- ===== src/Runtime/Address.antt =====
-- `AddressToAssetId` of runtime/src/lib.rs. An address is its 20 bytes; an asset id has 128 bits.
pub mod RoundTrip
use can_bus.Base.{
  ℕ, zero, suc, ◌+◌, ◌*◌, ◌/◌, ◌%◌, Option, none, some, List, [], ◌∷◌, ◌++◌, take, drop, bytes_eq,
  if◌then◌else◌, replicate,
}

-- `ASSET_PRECOMPILE_ADDRESS_PREFIX`
abbrev pub asset_precompile_address_prefix : List ℕ
asset_precompile_address_prefix = replicate 4 255

-- `to_be_bytes` of a type of `k` bytes.
unfoldable pub to_be_bytes : ℕ → ℕ → List ℕ
to_be_bytes zero n = []
to_be_bytes (suc k) n = to_be_bytes k (n / 256) ++ n % 256 ∷ []

-- `from_be_bytes`, from the number that the bytes before make.
unfoldable pub from_be_bytes : ℕ → List ℕ → ℕ
from_be_bytes before [] = before
from_be_bytes before (b ∷ bytes) = from_be_bytes (before * 256 + b) bytes

unfoldable pub address_to_asset_id : List ℕ → Option ℕ
unfolding from_be_bytes
address_to_asset_id address =
    if bytes_eq asset_precompile_address_prefix (take 4 address)
    then some (from_be_bytes 0 (drop 4 address))
    else none

unfoldable pub asset_id_to_address : ℕ → List ℕ
unfolding to_be_bytes
asset_id_to_address asset_id = asset_precompile_address_prefix ++ to_be_bytes 16 asset_id
