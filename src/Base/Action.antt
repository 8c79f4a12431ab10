-- ===== src/Base/Action.antt =====
-- Code that acts on the outside world and may raise: an action takes the state of the world and
-- gives its result with the state that it leaves, also where it raises.
use mathlib.Core.Path.{◌≡◌, refl, ap, ◌∙◌}
use mathlib.Core.Logic.{◌≢◌, ◌⊎◌, inl, inr}
use vdev_lab.Base.Result.{Result, ok, err, Exception, Raises, Raises-err, Raises-ok}

abbrev pub Action {ℓ κ} : Type ℓ → Type κ → Type (ℓ ⊔ κ)
Action W A = W → Result A × W

module _ {ℓ κ} {W : Type ℓ} {A : Type κ} where
  abbrev pub pure : A → Action W A
  pure a w = (ok a, w)

  abbrev pub raise : Exception → Action W A
  raise e w = (err e, w)

  abbrev pub lift : Result A → Action W A
  lift r w = (r, w)

  -- `try: m except BaseException as e: handler(e)`
  abbrev pub handle : Result A → (Exception → Action W A) → Action W A
  handle (ok a) handler w = (ok a, w)
  handle (err e) handler w = handler e w

  unfoldable pub try_except : Action W A → (Exception → Action W A) → Action W A
  try_except m handler w = let (r, w') = m w in handle r handler w'

pub err_ne_ok {ℓ} : {A : Type ℓ} {e : Exception} {a : A} → err e ≢ ok a
err_ne_ok h = cc

module _ {ℓ κ μ} {W : Type ℓ} {A : Type κ} {B : Type μ} where
  abbrev continue : Result A → (A → Action W B) → Action W B
  continue (ok a) f w = f a w
  continue (err e) f w = (err e, w)

  infixl 5 ◌>>=◌
  unfoldable pub ◌>>=◌ : Action W A → (A → Action W B) → Action W B
  ◌>>=◌ m f w = let (r, w') = m w in continue r f w'

  -- A block goes on from what its first action returned, or raises what it raised.
  pub >>=-ok :
      (m : Action W A) (f : A → Action W B) (w : W) {a : A} {w' : W}
      → m w ≡ (ok a, w')
      → (m >>= f) w ≡ f a w'
  unfolding ◌>>=◌
  >>=-ok m f w e = rw e

  pub >>=-err :
      (m : Action W A) (f : A → Action W B) (w : W) {e : Exception} {w' : W}
      → m w ≡ (err e, w')
      → (m >>= f) w ≡ (err e, w')
  unfolding ◌>>=◌
  >>=-err m f w e = rw e

  -- A block that returned has returned from its first action.
  pub >>=-eq-ok :
      (m : Action W A) (f : A → Action W B) (w : W) {b : B} {end : W}
      → (m >>= f) w ≡ (ok b, end)
      → (a : A) × (w' : W) × (m w ≡ (ok a, w')) × (f a w' ≡ (ok b, end))
  unfolding ◌>>=◌
  >>=-eq-ok m f w {b} {end} h = split (m w) refl h
    where
      split :
          (r : Result A × W)
          → m w ≡ r
          → continue r.0 f r.1 ≡ (ok b, end)
          → (a : A) × (w' : W) × (m w ≡ (ok a, w')) × (f a w' ≡ (ok b, end))
      split (ok a, w') e k = (a, w', e, k)
      split (err x, w') e k = absurd (err_ne_ok (ap (λ t. t.0) k))

module _ {ℓ κ} {W : Type ℓ} {A : Type κ} where
  pub try_except-ok :
      (m : Action W A) (handler : Exception → Action W A) (w : W) {a : A} {w' : W}
      → m w ≡ (ok a, w')
      → try_except m handler w ≡ (ok a, w')
  unfolding try_except
  try_except-ok m handler w e = rw e

  pub try_except-err :
      (m : Action W A) (handler : Exception → Action W A) (w : W) {e : Exception} {w' : W}
      → m w ≡ (err e, w')
      → try_except m handler w ≡ handler e w'
  unfolding try_except
  try_except-err m handler w e = rw e

  -- A block that returned has returned from its body, or from the handler of what the body raised.
  pub try_except-eq-ok :
      (m : Action W A) (handler : Exception → Action W A) (w : W) {a : A} {end : W}
      → try_except m handler w ≡ (ok a, end)
      → (m w ≡ (ok a, end))
        ⊎ ((e : Exception) × (w' : W) × (m w ≡ (err e, w')) × (handler e w' ≡ (ok a, end)))
  unfolding try_except
  try_except-eq-ok m handler w {a} {end} h = split (m w) refl h
    where
      split :
          (r : Result A × W)
          → m w ≡ r
          → handle r.0 handler r.1 ≡ (ok a, end)
          → (m w ≡ (ok a, end))
            ⊎ ((e : Exception) × (w' : W) × (m w ≡ (err e, w')) × (handler e w' ≡ (ok a, end)))
      split (ok b, w') e k = inl (e ∙ k)
      split (err x, w') e k = inr (x, w', e, k)

infixl 5 ◌>>◌
abbrev pub ◌>>◌ {ℓ κ} : {W : Type ℓ} {B : Type κ} → Action W (Unit {0}) → Action W B → Action W B
m >> k = m >>= λ _. k

-- The action returns.
abbrev pub Terminates {ℓ κ} : {W : Type ℓ} {A : Type κ} → Action W A → W → Type (ℓ ⊔ κ)
Terminates {W = W} {A = A} m w = (a : A) × (w' : W) × (m w ≡ (ok a, w'))

pub Terminates-bind {ℓ κ μ} :
    {W : Type ℓ} {A : Type κ} {B : Type μ} (m : Action W A) (f : A → Action W B) (w : W)
    → Terminates m w
    → ((a : A) (w' : W) → Terminates (f a) w')
    → Terminates (m >>= f) w
Terminates-bind m f w (a, w', e) g = let (b, w'', e') = g a w' in (b, w'', >>=-ok m f w e ∙ e')

module _ {ℓ κ μ ν} {W : Type ℓ} {A : Type κ} {B : Type μ} {P : Exception → Type ν} where
  continue-Raises :
      (f : A → Action W B) (r : Result A × W)
      → Raises P r.0
      → ((a : A) (w : W) → Raises P (f a w).0)
      → Raises P (continue r.0 f r.1).0
  continue-Raises f (ok a, w) _ q = q a w
  continue-Raises f (err e, w) p q = Raises-err e (p.raised e refl)

  -- What a block raises has the property, if that holds of its parts.
  pub Raises-then :
      (m : Action W A) (f : A → Action W B) (w : W)
      → Raises P (m w).0
      → ((a : A) (v : W) → Raises P (f a v).0)
      → Raises P ((m >>= f) w).0
  unfolding ◌>>=◌
  Raises-then m f w p q = continue-Raises f (m w) p q

pub Terminates-Raises {ℓ κ ν} :
    {W : Type ℓ} {A : Type κ} {P : Exception → Type ν} (m : Action W A) (w : W)
    → Terminates m w
    → Raises P (m w).0
Terminates-Raises m w (a, w', e) = rw e (Raises-ok a)
