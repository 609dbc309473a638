-- ===== src/Escrow/Bindings.antt =====
-- availability/escrow-payment/bindings/registry.go. An address is 20 bytes, an escrow contract's id
-- 32. The registry's mutex makes each method one step.
use cipher.Prelude.{
  ℕ, not, ◌&&◌, ◌||◌, ◌==◌, Option, none, some, List, [], ◌++◌, Bytes, bytes, bytes_eq, zeros,
  is_empty, length, take, drop, lookup, insert, Result, ok, err, if◌then◌else◌,
}
use cipher.Prelude.Encoding.{hex_encode, hex_decode}

pub data BindingError : Type 0 where
  bad_hex missing_binding bound_elsewhere : BindingError

abbrev pub EthereumAddress : Type 0
EthereumAddress = Bytes

abbrev pub EscrowContractId : Type 0
EscrowContractId = Bytes

-- `hex.DecodeString` into an array of `size` bytes.
abbrev decode_array : ℕ → Bytes → Result BindingError Bytes
decode_array size value = elim (hex_decode value) [
  | none ↦ err bad_hex
  | some decoded ↦ if not (length decoded == size) then err bad_hex else ok decoded
]

-- ParseEthereumAddress
unfoldable pub parse_ethereum_address : Bytes → Result BindingError EthereumAddress
parse_ethereum_address value =
    decode_array 20
      (if length value == 42 && bytes_eq (take 2 value) (bytes "0x") then drop 2 value else value)

-- EthereumAddress.String
unfoldable pub address_string : EthereumAddress → Bytes
address_string address = bytes "0x" ++ hex_encode address

-- ParseEscrowContractId
unfoldable pub parse_escrow_contract_id : Bytes → Result BindingError EscrowContractId
parse_escrow_contract_id value =
    decode_array 32
      (if length value == 66 && bytes_eq (take 2 value) (bytes "0x") then drop 2 value else value)

-- EscrowContractId.String
unfoldable pub escrow_string : EscrowContractId → Bytes
escrow_string contract_id = bytes "0x" ++ hex_encode contract_id

pub record Registry : Type 0 where
  pub providers : List (Bytes × EthereumAddress)
  pub contracts : List (Bytes × EscrowContractId)

-- NewRegistry
unfoldable pub new_registry : Registry
new_registry = record { providers = []; contracts = [] }

-- What both Bind methods do with their map: the new map, or the refusal.
unfoldable pub bind :
    Bytes → Bytes → List (Bytes × Bytes) → Result BindingError (List (Bytes × Bytes))
bind key value m = elim (lookup key m) [
  | some existing ↦ if not (bytes_eq existing value) then err bound_elsewhere else ok m
  | none ↦ ok (insert key value m)
]

-- Registry.BindProvider
unfoldable pub bind_provider :
    Bytes → EthereumAddress → Registry → Registry × Result BindingError (Unit {0})
bind_provider peer_id address r =
    if is_empty peer_id || bytes_eq address (zeros 20)
    then (r, err missing_binding)
    else elim (bind peer_id address r.providers) [
      | err e ↦ (r, err e)
      | ok m ↦ (record r { providers = m }, ok tt)
    ]

-- Registry.BindContract
unfoldable pub bind_contract :
    Bytes → EscrowContractId → Registry → Registry × Result BindingError (Unit {0})
bind_contract contract_id escrow_contract_id r =
    if is_empty contract_id || bytes_eq escrow_contract_id (zeros 32)
    then (r, err missing_binding)
    else elim (bind contract_id escrow_contract_id r.contracts) [
      | err e ↦ (r, err e)
      | ok m ↦ (record r { contracts = m }, ok tt)
    ]

-- Registry.ProviderAddress
unfoldable pub provider_address : Bytes → Registry → Option EthereumAddress
provider_address peer_id r = lookup peer_id r.providers

-- Registry.EscrowID
unfoldable pub escrow_id : Bytes → Registry → Option EscrowContractId
escrow_id contract_id r = lookup contract_id r.contracts
