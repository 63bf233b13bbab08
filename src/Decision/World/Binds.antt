-- ===== src/Decision/World/Binds.antt =====
-- How a chain of actions ends: by the error of its first part, or by its second part.
use cloudfall.Base.{◌≡◌, refl, ap}
use cloudfall.Base.Results.{ok, err}
use cloudfall.Decision.Errors.{DecisionError, Checked}
use cloudfall.Decision.World.{World, Exec, and_then, ◌>>=◌}

module _ {A B : Type 0} where
  -- To show `Q` of how a chain ends, show it where the first part raises, and where it returns.
  pub bind-post :
      (Q : Checked B × World → Type 0) (m : Exec A) (f : A → Exec B) (u : World)
      → ((e : DecisionError) → (m u).0 ≡ err e → Q (err e, (m u).1))
      → ((a : A) → (m u).0 ≡ ok a → Q (f a (m u).1))
      → Q ((m >>= f) u)
  bind-post Q m f u raised returned = go (m u).0 refl
    where
      go : (r : Checked A) → (m u).0 ≡ r → Q (and_then f r (m u).1)
      go (ok a) e = returned a e
      go (err x) e = raised x e

  -- A chain that returns went through both parts.
  pub bind-eq-ok :
      (m : Exec A) (f : A → Exec B) (u w : World) {b : B}
      → (m >>= f) u ≡ (ok b, w)
      → (a : A) × ((m u).0 ≡ ok a) × (f a (m u).1 ≡ (ok b, w))
  bind-eq-ok m f u w {b} =
      bind-post (λ r. r ≡ (ok b, w) → (a : A) × ((m u).0 ≡ ok a) × (f a (m u).1 ≡ (ok b, w))) m f u
        (λ e p h. cc) (λ a p h. (a, p, h))

-- Two outcomes that return are equal in what they return and in the world that they leave.
pub ok-pair-injective :
    {A : Type 0} {a b : A} {v w : World}
    → ◌≡◌ {A = Checked A × World} (ok a, v) (ok b, w)
    → (a ≡ b) × (v ≡ w)
ok-pair-injective {A} {a} {b} h =
    let first : ◌≡◌ {A = Checked A} (ok a) (ok b) = ap (λ p. p.0) h in (cc, ap (λ p. p.1) h)

-- Returning a value last changes no world.
pub and_then-world :
    {A B : Type 0} (b : B) (r : Checked A) (w : World) → (and_then (λ _ v. (ok b, v)) r w).1 ≡ w
and_then-world b (ok a) w = refl
and_then-world b (err e) w = refl

-- A chain that returns its last value got there.
pub and_then-eq-ok :
    {A B : Type 0} (b : B) (r : Checked A) (w v : World) {d : B}
    → and_then (λ _ u. (ok b, u)) r w ≡ (ok d, v)
    → (a : A) × (r ≡ ok a) × (b ≡ d) × (w ≡ v)
and_then-eq-ok b (ok a) w v h = let (e, t) = ok-pair-injective h in (a, refl, e, t)
and_then-eq-ok b (err e) w v h = cc
