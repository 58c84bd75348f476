-- ===== src/Store/Types.antt =====
-- The status and type names of internal/store (dispatch.go, otx.go), and the values that the
-- migrations put into the tables `dispatch_status_type` and `otx_tx_type`, which the columns
-- `dispatch.status` and `otx.otx_type` refer to.
use eth_custodial.Prelude.{String, Bool, false, List, [], ◌∷◌, ◌||◌, str_eq}

pub data DispatchStatus : Type 0 where
  pending in_network success reverted low_nonce no_gas low_gas_price : DispatchStatus
  replacement_underpriced network_error external_dispatch unknown_rpc_error : DispatchStatus

abbrev pub status_text : DispatchStatus → String
status_text pending = "PENDING"
status_text in_network = "IN_NETWORK"
status_text success = "SUCCESS"
status_text reverted = "REVERTED"
status_text low_nonce = "LOW_NONCE"
status_text no_gas = "NO_GAS"
status_text low_gas_price = "LOW_GAS_PRICE"
status_text replacement_underpriced = "REPLACEMENT_UNDERPRICED"
status_text network_error = "NETWORK_ERROR"
status_text external_dispatch = "EXTERNAL_DISPATCH"
status_text unknown_rpc_error = "UNKNOWN_ERROR"

pub data OtxType : Type 0 where
  gas_refill account_register gas_transfer token_transfer token_approve token_sweep : OtxType
  pool_swap pool_deposit other_manual generic_sign standard_token_deploy : OtxType
  transfer_ownership token_index_add pool_deploy token_index_deploy limiter_deploy : OtxType
  swappool_deploy priceindexquoter_deploy pool_index_add set_quoter : OtxType
  demurrage_token_deploy expiring_token_deploy : OtxType

abbrev pub otx_type_text : OtxType → String
otx_type_text gas_refill = "GAS_REFILL"
otx_type_text account_register = "ACCOUNT_REGISTER"
otx_type_text gas_transfer = "GAS_TRANSFER"
otx_type_text token_transfer = "TOKEN_TRANSFER"
otx_type_text token_approve = "TOKEN_APPROVE"
otx_type_text token_sweep = "TOKEN_SWEEP"
otx_type_text pool_swap = "POOL_SWAP"
otx_type_text pool_deposit = "POOL_DEPOSIT"
otx_type_text other_manual = "OTHER_MANUAL"
otx_type_text generic_sign = "GENERIC_SIGN"
otx_type_text standard_token_deploy = "STANDARD_TOKEN_DEPLOY"
otx_type_text transfer_ownership = "TRANSFER_OWNERSHIP"
otx_type_text token_index_add = "TOKEN_INDEX_ADD"
otx_type_text pool_deploy = "POOL_DEPLOY"
otx_type_text token_index_deploy = "TOKEN_INDEX_DEPLOY"
otx_type_text limiter_deploy = "LIMITER_DEPLOY"
otx_type_text swappool_deploy = "SWAPPOOL_DEPLOY"
otx_type_text priceindexquoter_deploy = "PRICEINDEXQUOTER_DEPLOY"
otx_type_text pool_index_add = "POOL_INDEX_ADD"
otx_type_text set_quoter = "SET_QUOTER"
otx_type_text demurrage_token_deploy = "DEMURRAGE_TOKEN_DEPLOY"
otx_type_text expiring_token_deploy = "EXPIRING_TOKEN_DEPLOY"

abbrev contains : List String → String → Bool
contains [] t = false
contains (x ∷ xs) t = str_eq x t || contains xs t

-- migrations/002_dispatch.sql
abbrev dispatch_status_types : List String
dispatch_status_types =
    "PENDING" ∷ "IN_NETWORK" ∷ "SUCCESS" ∷ "REVERTED" ∷ "LOW_NONCE" ∷ "NO_GAS" ∷ "LOW_GAS_PRICE"
    ∷ "NETWORK_ERROR" ∷ "EXTERNAL_DISPATCH" ∷ "REPLACEMENT_UNDERPRICED" ∷ "UNKNOWN_RPC_ERROR" ∷ []

-- migrations/001_init_custodial.sql and 003 to 006
abbrev otx_tx_types : List String
otx_tx_types =
    "GAS_REFILL" ∷ "ACCOUNT_REGISTER" ∷ "GAS_TRANSFER" ∷ "TOKEN_TRANSFER" ∷ "TOKEN_APPROVE"
    ∷ "POOL_SWAP" ∷ "POOL_DEPOSIT" ∷ "OTHER_MANUAL" ∷ "GENERIC_SIGN" ∷ "TOKEN_SWEEP"
    ∷ "STANDARD_TOKEN_DEPLOY" ∷ "TRANSFER_OWNERSHIP" ∷ "TOKEN_INDEX_ADD" ∷ "POOL_DEPLOY"
    ∷ "TOKEN_INDEX_DEPLOY" ∷ "LIMITER_DEPLOY" ∷ "SWAPPOOL_DEPLOY" ∷ "PRICEINDEXQUOTER_DEPLOY"
    ∷ "POOL_INDEX_ADD" ∷ "SET_QUOTER" ∷ "DEMURRAGE_TOKEN_DEPLOY" ∷ "EXPIRING_TOKEN_DEPLOY" ∷ []

-- The foreign keys of the two columns.
unfoldable pub is_status_type : DispatchStatus → Bool
is_status_type s = contains dispatch_status_types (status_text s)

unfoldable pub is_otx_type : OtxType → Bool
is_otx_type t = contains otx_tx_types (otx_type_text t)
