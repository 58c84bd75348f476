-- ===== src/Api/Safety/Rules.antt =====
-- Triples for the steps of the handlers.
use eth_custodial.Prelude.{
  ℕ, ◌≡◌, refl, String, Bool, true, false, Option, none, some, if◌then◌else◌,
}
use eth_custodial.Store.Tables.{Db}
use eth_custodial.Store.Results.{Error, Result, ok, err, no_rows}
use eth_custodial.World.{World, M, pure, raise, attempt, ◌>>=◌}
use eth_custodial.World.Hoare.{Assert, Ends, Hoare, ◌⨾◌, still, Hoare-pure}
use eth_custodial.Runtime.{Env}
use eth_custodial.Store.Queries
use eth_custodial.Pg
use eth_custodial.Pg.{read}
use eth_custodial.Pg.Rules.{Still-external}
use eth_custodial.Api.Response.{
  Reply, err_response, handle_postgres_error, or_postgres_error, on_postgres, with_request,
}
use eth_custodial.Api.Auth.{
  Token, Session, missing, invalid, other_error, no_token, verified, is_revoked, sub_of,
  with_claims, authenticate,
}

-- The committed database is still `c0`.
abbrev pub Is : Db → Db → Type 0
Is c0 c = c ≡ c0

module _ {A : Type 0} (E : Db → Type 0) (Q : A → Assert) (R : Reply → Assert) where
  handled :
      (e : Error) (w : World)
      → ((s : ℕ) (d x : String) (c v : Db) → E c → R (err_response s d x) c v)
      → E w.committed
      → Ends E R (handle_postgres_error e w).0 (handle_postgres_error e w).1
  unfolding pure raise
  handled no_rows w h x = h _ _ _ w.committed w.working x
  handled _ w h x = x

  answered :
      (r : Result A) (k : A → M Reply) (w : World)
      → ((a : A) → Hoare E (Q a) (k a) R)
      → ((s : ℕ) (d x : String) (c v : Db) → E c → R (err_response s d x) c v)
      → Ends E Q r w
      → Ends E R (or_postgres_error r k w).0 (or_postgres_error r k w).1
  answered (ok a) k w hk h x = (hk a).at w x
  answered (err e) k w hk h x = handled e w h x

module _ {A : Type 0} {E : Db → Type 0} {P : Assert} {Q : A → Assert} {R : Reply → Assert} where
  -- An error of the call is answered, or returned.
  pub Hoare-on_postgres :
      {m : M A} {k : A → M Reply}
      → ((s : ℕ) (d x : String) (c v : Db) → E c → R (err_response s d x) c v)
      → Hoare E P m Q
      → ((a : A) → Hoare E (Q a) (k a) R)
      → Hoare E P (on_postgres m k) R
  unfolding on_postgres attempt ◌>>=◌
  Hoare-on_postgres {m} {k} h hm hk = record {
    at = λ w p. answered E Q R (m w).0 k (m w).1 hk h (hm.at w p);
  }

module _ {A : Type 0} {E : Db → Type 0} {P : Assert} {Q : A → Assert} where
  pub Hoare-if_eq :
      {m n : M A} (b : Bool)
      → ((b ≡ true) → Hoare E P m Q)
      → ((b ≡ false) → Hoare E P n Q)
      → Hoare E P (if b then m else n) Q
  Hoare-if_eq true hm hn = hm refl
  Hoare-if_eq false hm hn = hn refl

  pub Hoare-read :
      (g : Db → A) → ((c d : Db) → P c d → Q (g d) c d) → Hoare E P (read (λ w d. ok (g d))) Q
  unfolding read
  Hoare-read g h = record { at = λ w p. h w.committed w.working p }

  -- A query that may fail.
  pub Hoare-read_of :
      (f : World → Db → Result A)
      → ((c d : Db) → P c d → E c)
      → ((w : World) (d : Db) (a : A) → f w d ≡ ok a → (c : Db) → P c d → Q a c d)
      → Hoare E P (read f) Q
  unfolding read
  Hoare-read_of f e q = record { at = λ w p. go w (f w w.working) p refl }
    where
      go : (w : World) (r : Result A) → P w.committed w.working → f w w.working ≡ r → Ends E Q r w
      go w (ok a) p h = q w w.working a h w.committed p
      go w (err x) p h = e w.committed w.working p

  -- What the precondition says of other things than the two databases.
  pub Hoare-known :
      {F : Type 0} {m : M A} → ((c w : Db) → P c w → F) → (F → Hoare E P m Q) → Hoare E P m Q
  Hoare-known f k = record { at = λ w p. (k (f w.committed w.working p)).at w p }

  pub relax :
      {m : M A} {E' : Db → Type 0} → ((c : Db) → E c → E' c) → Hoare E P m Q → Hoare E' P m Q
  relax {m} {E'} f h = record { at = λ w p. go (m w).0 (m w).1 (h.at w p) }
    where
      go : (r : Result A) (w : World) → Ends E Q r w → Ends E' Q r w
      go (ok a) w x = x
      go (err e) w x = f w.committed x

module _ {E : Db → Type 0} {P : Assert} {R : Reply → Assert} where
  pub Hoare-with_request :
      {A : Type 0} (valid : A → Bool) (body : Option A) (k : A → M Reply)
      → ((s : ℕ) (d x : String) (c v : Db) → P c v → R (err_response s d x) c v)
      → ((a : A) → (valid a ≡ true) → Hoare E P (k a) R)
      → Hoare E P (with_request valid body k) R
  Hoare-with_request valid none k h hk = Hoare-pure _ (h _ _ _)
  Hoare-with_request valid (some a) k h hk =
      Hoare-if_eq (valid a) (hk a) (λ _. Hoare-pure _ (h _ _ _))

  claimed :
      (pk : Option String) (s : Option Bool) (k : Session → M Reply)
      → ((s : ℕ) (d x : String) (c v : Db) → P c v → R (err_response s d x) c v)
      → ((s : Session) → Hoare E P (k s) R)
      → Hoare E P (with_claims pk s k) R
  claimed none s k h hk = Hoare-pure _ (h _ _ _)
  claimed (some pk) none k h hk = Hoare-pure _ (h _ _ _)
  claimed (some pk) (some s) k h hk = hk _

  pub Hoare-authenticate :
      (t : Token) (k : Session → M Reply)
      → ((s : ℕ) (d x : String) (c v : Db) → P c v → R (err_response s d x) c v)
      → ((s : Session) → Hoare E P (k s) R)
      → Hoare E P (authenticate t k) R
  unfolding authenticate
  Hoare-authenticate missing k h hk = Hoare-pure _ (h _ _ _)
  Hoare-authenticate invalid k h hk = Hoare-pure _ (h _ _ _)
  Hoare-authenticate other_error k h hk = Hoare-pure _ (h _ _ _)
  Hoare-authenticate no_token k h hk = Hoare-pure _ (h _ _ _)
  Hoare-authenticate (verified none) k h hk = Hoare-pure _ (h _ _ _)
  Hoare-authenticate (verified (some claims)) k h hk =
      Hoare-if_eq (is_revoked (sub_of claims.sub)) (λ _. Hoare-pure _ (h _ _ _))
        (λ _. claimed claims.public_key claims.service k h hk)

module _ (env : Env) where
  -- What the check of a key finds is what the database says.
  pub Hoare-check_keypair :
      {E : Db → Type 0} {P : Assert} {Q : Bool → Assert} (account : String)
      → ((c d : Db) → P c d → E c)
      → ((c d : Db) → P c d → Q (Queries.check_keypair account d) c d)
      → Hoare E P (Pg.check_keypair env account) Q
  unfolding Pg.check_keypair
  Hoare-check_keypair account e q = still e (Still-external env) ⨾ λ _. Hoare-read _ q
