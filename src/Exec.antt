-- ===== src/Exec.antt =====
-- Code that changes a state and may return an error: the state comes back beside the error, since
-- what was written before it stays written. `?` is the bind; `.ok()` is `attempt`.
pub mod Triples
use lentropy.Common.{Bool, true, false, Option, none, some, List, [], ◌∷◌, if◌then◌else◌}
use lentropy.Outcome.{Outcome, ok, err, panic, timeout}

abbrev pub Exec : Type 0 → Type 0 → Type 0 → Type 0
Exec W E A = W → Outcome E A × W

abbrev pub Done : Type 0 → Type 0 → Type 0
Done W E = Exec W E (Unit {0})

module _ {W E A : Type 0} where
  abbrev pub pure : A → Exec W E A
  pure a w = (ok a, w)

  abbrev pub fail : E → Exec W E A
  fail e w = (err e, w)

  abbrev pub lift : Outcome E A → Exec W E A
  lift r w = (r, w)

  abbrev pub gets : (W → A) → Exec W E A
  gets f w = (ok (f w), w)

  abbrev attempted : Outcome E A × W → Outcome E (Option A) × W
  attempted (ok a, w) = (ok (some a), w)
  attempted (err e, w) = (ok none, w)
  attempted (panic, w) = (panic, w)
  attempted (timeout, w) = (timeout, w)

  -- `.ok()`.
  unfoldable pub attempt : Exec W E A → Exec W E (Option A)
  attempt m w = attempted (m w)

module _ {W E : Type 0} where
  abbrev pub modify : (W → W) → Done W E
  modify f w = (ok tt, f w)

module _ {W E A B : Type 0} where
  abbrev pub continue : (A → Exec W E B) → Outcome E A × W → Outcome E B × W
  continue f (ok a, w) = f a w
  continue f (err e, w) = (err e, w)
  continue f (panic, w) = (panic, w)
  continue f (timeout, w) = (timeout, w)

  infixl 5 ◌>>=◌ ◌>>◌
  unfoldable pub ◌>>=◌ : Exec W E A → (A → Exec W E B) → Exec W E B
  ◌>>=◌ m f w = continue f (m w)

  abbrev pub ◌>>◌ : Exec W E A → Exec W E B → Exec W E B
  m >> n = m >>= λ _. n

module _ {W E : Type 0} where
  -- `if b { m }`.
  unfoldable pub when : Bool → Done W E → Done W E
  when b m w = if b then m w else (ok tt, w)

  -- `for x in xs { body(x)? }`.
  unfoldable pub for_each : {A : Type 0} → (A → Done W E) → List A → Done W E
  unfolding ◌>>=◌
  for_each body [] = pure tt
  for_each body (x ∷ xs) = body x >>= λ _. for_each body xs
