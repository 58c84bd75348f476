-- ===== src/Api/Safety/Pages.antt =====
-- The page of an account's transactions that `getOTXByAddressHandler` answers with.
use eth_custodial.Prelude.{
  leb, Bool-cases, inl, inr, ℕ, ◌≤◌, ◌≡◌, refl, String, true, false, some, List, [], ◌∷◌, ◌++◌, ap,
  arith,
}
use mathlib.Core.Path.{subst}
use eth_custodial.Prelude.Int.{ℤ, pos, negsuc, pos_part, ltb_ℤ}
use eth_custodial.Store.Results.{Result, ok, err}
use eth_custodial.Store.Queries.{int_max}
use eth_custodial.World.{World}
use eth_custodial.World.Hoare.{Hoare, Ends, still, ◌⨾◌, Hoare-pure, Hoare-if}
use eth_custodial.Runtime.{Env}
use eth_custodial.Pg
use eth_custodial.Pg.{page_at, read}
use eth_custodial.Pg.Rules.{Still-external, Hoare-begin, Hoare-commit}
use eth_custodial.Store.Results.{ok_injective}
use eth_custodial.Api.Response.{Payload, otx_page, Reply, ok_response, err_response}
use eth_custodial.Api.Requests.{valid_otx_by_account, OtxByAccountRequest}
use eth_custodial.Api.Otx.{
  Pagination, first_id, last_id, validate_pagination, fetch_page, otx_by_address_valid,
  get_otx_by_address_handler,
}
use eth_custodial.Api.Auth.{Token, authenticate}
use eth_custodial.Api.{account_otx, api, route, serve, handle, respond}
use eth_custodial.Api.Safety.Rules.{Hoare-on_postgres, Hoare-authenticate, Hoare-read_of}
use eth_custodial.Store.Tables.{Db, Otx}
use eth_custodial.Store.Selects.{}
use eth_custodial.Store.Selects.Accounts.{IsPage, first-IsPage, next-IsPage, previous-IsPage}

-- The id of the first row and that of the last one, and zeros where there is no row.
abbrev pub AreEnds : List Otx → ℕ → ℕ → Type 0
AreEnds [] first last = (first ≡ 0) × (last ≡ 0)
AreEnds (o ∷ os) first last =
    (first ≡ o.id) × ((before : List Otx) × (p : Otx) × (o ∷ os ≡ before ++ p ∷ []) × (last ≡ p.id))

ends : (rows : List Otx) → AreEnds rows (first_id rows) (last_id rows)
ends [] = (refl, refl)
ends (o ∷ []) = (refl, ([], o, refl, refl))
ends (o ∷ p ∷ os) =
    let (before, q, split, last) = (ends (p ∷ os)).1 in
    (refl, (o ∷ before, q, ap (λ l. o ∷ l) split, last))

-- What an answer to a listing shows: a page, with the ids of its two ends.
abbrev pub IsListed : String → ℕ → Payload → Type 0
IsListed pk limit (otx_page rows first last) = IsPage pk limit rows × AreEnds rows first last
IsListed pk limit _ = ⊥

abbrev pub IsListing : String → ℕ → Reply → Type 0
IsListing pk limit (ok_response d p) = IsListed pk limit p
IsListing pk limit (err_response s d x) = Unit

abbrev Any : Db → Type 0
Any c = Unit

Finds_page :
    (P : List Otx → Type 0) (c : ℤ) (page : ℕ → List Otx) (rows : List Otx)
    → ((n : ℕ) → P (page n))
    → page_at c page ≡ ok rows
    → P rows
Finds_page P (pos n) page rows h e = elim (Bool-cases (leb n int_max)) [
  | inl t ↦ subst P (ok_injective (rw t at e)) (h n)
  | inr f ↦ cc
]
Finds_page P (negsuc n) page rows h e = elim (Bool-cases (leb n int_max)) [
  | inl t ↦ subst P (ok_injective (rw t at e)) (h 0)
  | inr f ↦ cc
]

module _ (env : Env) (pk : String) (n : ℕ) where
  Hoare-first :
      Hoare Any (λ c w. Unit) (Pg.get_otx_by_account env pk n) (λ rows c w. IsPage pk n rows)
  unfolding Pg.get_otx_by_account
  Hoare-first = still (λ c w p. tt) (Still-external env) ⨾ λ _.
      Hoare-read_of _ (λ c w p. tt)
        λ w d rows e x p. subst (IsPage pk n) (ok_injective e) (first-IsPage pk n d)

  Hoare-next :
      (c : ℤ)
      → Hoare Any
          (λ c w. Unit)
          (Pg.get_otx_by_account_next env pk c n)
          (λ rows c w. IsPage pk n rows)
  unfolding Pg.get_otx_by_account_next
  Hoare-next c = still (λ c w p. tt) (Still-external env) ⨾ λ _.
      Hoare-read_of _ (λ c w p. tt)
        λ w d rows e x p. Finds_page (IsPage pk n) c _ rows (λ i. next-IsPage pk i n d) e

  Hoare-previous :
      (c : ℤ)
      → Hoare Any
          (λ c w. Unit)
          (Pg.get_otx_by_account_previous env pk c n)
          (λ rows c w. IsPage pk n rows)
  unfolding Pg.get_otx_by_account_previous
  Hoare-previous c = still (λ c w p. tt) (Still-external env) ⨾ λ _.
      Hoare-read_of _ (λ c w p. tt)
        λ w d rows e x p. Finds_page (IsPage pk n) c _ rows (λ i. previous-IsPage pk i n d) e

larger : (n : ℤ) → ltb_ℤ (pos 100) n ≡ true → 100 ≤ pos_part n
larger (pos n) h = ground arith
larger (negsuc n) h = ground arith

smaller : (n : ℤ) → ltb_ℤ (pos 100) n ≡ false → pos_part n ≤ 100
smaller (pos n) h = ground arith
smaller (negsuc n) h = omega arith

-- What the size of a page comes to.
validate_pagination_lem :
    (q : OtxByAccountRequest)
    → ((validate_pagination q).request.address ≡ q.address)
      × (pos_part (validate_pagination q).request.per_page ≤ 100)
      × (pos_part (validate_pagination q).request.per_page ≤ pos_part q.per_page)
unfolding validate_pagination
validate_pagination_lem q = elim (Bool-cases (ltb_ℤ (pos 100) q.per_page)) [
  | inl t ↦ rw t (refl, omega arith, larger q.per_page t)
  | inr f ↦ rw f (refl, smaller q.per_page f, omega arith)
]

narrow :
    (q : OtxByAccountRequest) (limit : ℕ) (rows : List Otx)
    → pos_part (validate_pagination q).request.per_page ≤ limit
    → IsPage
        (validate_pagination q).request.address
        (pos_part (validate_pagination q).request.per_page)
        rows
    → IsPage q.address limit rows
narrow q limit rows h p = record {
  account = rw (validate_pagination_lem q).0 at p.account;
  short = omega (arith, h, p.short);
}

module _ (env : Env) where
  Hoare-fetch_page :
      (p : Pagination)
      → Hoare Any
          (λ c w. Unit)
          (fetch_page env p)
          (λ rows c w. IsPage p.request.address (pos_part p.request.per_page) rows)
  unfolding fetch_page
  Hoare-fetch_page p =
      Hoare-if p.first_page (Hoare-first env _ _)
        (Hoare-if p.request.next (Hoare-next env _ _ _) (Hoare-previous env _ _ _))

  otx_by_address-Listing :
      (q : OtxByAccountRequest) (limit : ℕ)
      → pos_part (validate_pagination q).request.per_page ≤ limit
      → Hoare Any (λ c w. Unit) (otx_by_address_valid env q) (λ r c w. IsListing q.address limit r)
  unfolding otx_by_address_valid
  otx_by_address-Listing q limit h =
      Hoare-on_postgres (λ s d x c v p. tt)
        (Hoare-begin env {Q = λ c w. Unit} (λ c w p. tt) (λ c w p. tt))
        λ _.
          Hoare-on_postgres (λ s d x c v p. tt) (Hoare-fetch_page (validate_pagination q))
            λ rows.
              Hoare-on_postgres {Q = λ _ c w. IsPage q.address limit rows} (λ s d x c v p. tt)
                (Hoare-commit env (λ c w p. tt) (λ c w p. narrow q limit rows h p))
                λ _. Hoare-pure _ (λ c w p. (p, ends rows))

respond-Listing :
    (pk : String) (limit : ℕ) (r : Result Reply) (w : World)
    → Ends Any (λ r c w. IsListing pk limit r) r w
    → IsListing pk limit (respond r)
respond-Listing pk limit (ok r) w h = h
respond-Listing pk limit (err e) w h = tt

serve-Listing :
    (env : Env) (token : Token) (q : OtxByAccountRequest) (limit : ℕ) (w : World)
    → pos_part (validate_pagination q).request.per_page ≤ limit
    → IsListing q.address limit (serve env (api token (account_otx (some q))) w).0
unfolding serve route handle get_otx_by_address_handler
serve-Listing env token q limit w h =
    let k = handle env (account_otx (some q)) in
    respond-Listing q.address limit (authenticate token k w).0 (authenticate token k w).1 (
      (Hoare-authenticate token k (λ s d x c v p. tt)
          (λ s.
            Hoare-if (valid_otx_by_account env q) (otx_by_address-Listing env q limit h)
              (Hoare-pure _ (λ c w p. tt)))).at
        w tt)

-- A listing that is answered with OK has transactions of the account that is asked for only, with
-- the first and the last id that it shows, at most a hundred of them and at most as many as were
-- asked for, wherever the cursor stands.
pub account_otx-IsListing :
    (env : Env) (token : Token) (q : OtxByAccountRequest) (w : World)
    → let reply = (serve env (api token (account_otx (some q))) w).0 in
      IsListing q.address 100 reply × IsListing q.address (pos_part q.per_page) reply
account_otx-IsListing env token q w =
    let (a, b, c) = validate_pagination_lem q in
    (serve-Listing env token q 100 w b, serve-Listing env token q (pos_part q.per_page) w c)
