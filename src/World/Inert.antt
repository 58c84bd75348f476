-- ===== src/World/Inert.antt =====
-- Actions that change nothing that others can see.
use eth_custodial.Prelude.{◌≡◌, refl, ◌∙◌}
use eth_custodial.Store.Results.{Result, ok, err}
use eth_custodial.World.{World, M, ◌>>=◌, continue, pure, lift, attempt}

-- Nothing that others can see changes: the committed database, the raw transactions handed to the
-- chain, and the events.
pub record IsInvisible (w w' : World) : Type 0 where
  pub committed : w'.committed ≡ w.committed
  pub sent : w'.sent ≡ w.sent
  pub events : w'.events ≡ w.events

abbrev pub Inert : {A : Type 0} → M A → Type 0
Inert m = (w : World) → IsInvisible w (m w).1

pub invisible : {w : World} → IsInvisible w w
invisible = record { committed = refl; sent = refl; events = refl }

pub IsInvisible-trans : {u v w : World} → IsInvisible u v → IsInvisible v w → IsInvisible u w
IsInvisible-trans a b = record {
  committed = b.committed ∙ a.committed;
  sent = b.sent ∙ a.sent;
  events = b.events ∙ a.events;
}

-- What is known of the value, where there is one.
abbrev pub Yields : {A : Type 0} → (A → Type 0) → Result A → Type 0
Yields P (ok a) = P a
Yields P (err e) = Unit

module _ {A B : Type 0} where
  Inert-continue :
      (r : Result A) (f : A → M B) (w : World)
      → ((a : A) → Inert (f a))
      → IsInvisible w (continue r f w).1
  Inert-continue (ok a) f w k = k a w
  Inert-continue (err e) f w k = invisible

  pub Inert-bind : (m : M A) (f : A → M B) → Inert m → ((a : A) → Inert (f a)) → Inert (m >>= f)
  unfolding ◌>>=◌
  Inert-bind m f s k w = IsInvisible-trans (s w) (Inert-continue (m w).0 f (m w).1 k)

  continue_known :
      (P : A → Type 0) (r : Result A) (f : A → M B) (w : World)
      → Yields P r
      → ((a : A) → P a → Inert (f a))
      → IsInvisible w (continue r f w).1
  continue_known P (ok a) f w h k = k a h w
  continue_known P (err e) f w h k = invisible

  pub Inert-bind_known :
      (P : A → Type 0) (m : M A) (f : A → M B)
      → Inert m
      → ((w : World) → Yields P (m w).0)
      → ((a : A) → P a → Inert (f a))
      → Inert (m >>= f)
  unfolding ◌>>=◌
  Inert-bind_known P m f s h k w =
      IsInvisible-trans (s w) (continue_known P (m w).0 f (m w).1 (h w) k)

module _ {A : Type 0} where
  pub Inert-pure : (a : A) → Inert (pure a)
  unfolding pure
  Inert-pure a w = invisible

  pub Inert-lift : (r : Result A) → Inert (lift r)
  unfolding lift
  Inert-lift r w = invisible

  pub Inert-attempt : (m : M A) → Inert m → Inert (attempt m)
  unfolding attempt
  Inert-attempt m s w = s w
