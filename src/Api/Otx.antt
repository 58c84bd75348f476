-- ===== src/Api/Otx.antt =====
-- The handlers of internal/api/otx_handler.go, and internal/api/pagination.go.
use Prim.Native.String.{◌++◌}
use eth_custodial.Prelude.{ℕ, String, Bool, not, ◌&&◌, Option, List, [], ◌∷◌, if◌then◌else◌}
use eth_custodial.Prelude.Int.{pos, ltb_ℤ, pos_part}
use eth_custodial.Store.Tables.{Otx}
use eth_custodial.World.{M, pure}
use eth_custodial.Runtime.{Env}
use eth_custodial.Pg
use eth_custodial.Api.Response.{Reply, ok_response, otx_list, otx_page, on_postgres, with_request}
use eth_custodial.Api.Requests.{OtxByAccountRequest, valid_tracking_id, valid_otx_by_account}

pub record Pagination : Type 0 where
  pub request : OtxByAccountRequest
  pub first_page : Bool

-- `validatePagination`
unfoldable pub validate_pagination : OtxByAccountRequest → Pagination
validate_pagination q = record {
  request = if ltb_ℤ (pos 100) q.per_page then record q { per_page = pos 100 } else q;
  first_page = not q.next && ltb_ℤ q.cursor (pos 1);
}

abbrev pub first_id : List Otx → ℕ
first_id [] = 0
first_id (o ∷ os) = o.id

abbrev pub last_id : List Otx → ℕ
last_id [] = 0
last_id (o ∷ []) = o.id
last_id (o ∷ p ∷ os) = last_id (p ∷ os)

module _ (env : Env) where
  unfoldable pub track_otx_valid : String → M Reply
  track_otx_valid tracking_id = on_postgres (Pg.begin env) λ _.
      on_postgres (Pg.get_otx_by_tracking_id env tracking_id) λ otx.
        on_postgres (Pg.commit env)
          λ _. pure (ok_response "Current OTX chain status" (otx_list otx))

  -- `trackOTXHandler`
  unfoldable pub track_otx_handler : Option String → M Reply
  track_otx_handler param = with_request (valid_tracking_id env) param track_otx_valid

  unfoldable pub fetch_page : Pagination → M (List Otx)
  fetch_page p =
      let q = p.request in
      if p.first_page
      then Pg.get_otx_by_account env q.address (pos_part q.per_page)
      else if q.next
      then Pg.get_otx_by_account_next env q.address q.cursor (pos_part q.per_page)
      else Pg.get_otx_by_account_previous env q.address q.cursor (pos_part q.per_page)

  unfoldable pub otx_by_address_valid : OtxByAccountRequest → M Reply
  otx_by_address_valid req = on_postgres (Pg.begin env) λ _.
      on_postgres (fetch_page (validate_pagination req)) λ otx. on_postgres (Pg.commit env) λ _.
        pure (
          ok_response ("Successfully fetched OTX for " ++ req.address)
            (otx_page otx (first_id otx) (last_id otx)))

  -- `getOTXByAddressHandler`
  unfoldable pub get_otx_by_address_handler : Option OtxByAccountRequest → M Reply
  get_otx_by_address_handler query =
      with_request (valid_otx_by_account env) query otx_by_address_valid
