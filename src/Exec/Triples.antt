-- ===== src/Exec/Triples.antt =====
-- What holds when a piece of code ends, by a condition on its result and one for its failures: a
-- rule for each way to build such code.
use lentropy.Common.{Bool, true, false, Option, none, some, List, [], ◌∷◌, if◌then◌else◌, ◌≡◌, refl}
use lentropy.Outcome.{Outcome, ok, err, panic, timeout}
use lentropy.Exec.{Exec, Done, pure, lift, attempt, attempted, continue, ◌>>=◌, when, for_each}

module _ {W E A : Type 0} where
  abbrev pub Ends : (A → W → Type 0) → (W → Type 0) → Outcome E A × W → Type 0
  Ends Q X (ok a, w) = Q a w
  Ends Q X (err e, w) = X w
  Ends Q X (panic, w) = X w
  Ends Q X (timeout, w) = X w

module _ {W E A : Type 0} (X : W → Type 0) where
  -- What holds after a result and after a failure holds of the state.
  pub Ends-state : (r : Outcome E A × W) → Ends (λ _. X) X r → X r.1
  Ends-state (ok a, w) h = h
  Ends-state (err e, w) h = h
  Ends-state (panic, w) h = h
  Ends-state (timeout, w) h = h

  Ends-fails :
      (Q : A → W → Type 0) (Y : W → Type 0) (r : Outcome E A × W)
      → Ends Q X r
      → ((w : W) → X w → Y w)
      → Ends Q Y r
  Ends-fails Q Y (ok a, w) h k = h
  Ends-fails Q Y (err e, w) h k = k w h
  Ends-fails Q Y (panic, w) h k = k w h
  Ends-fails Q Y (timeout, w) h k = k w h

-- From a state with `P`, a result comes with `Q`, and anything else with `X`.
pub record Meets {W E A : Type 0} (P X : W → Type 0) (m : Exec W E A) (Q : A → W → Type 0)
    : Type 0 where
  pub at : (w : W) → P w → Ends Q X (m w)

-- `I` holds after `m`, whether it returns or fails.
module _ {W E A : Type 0} where
  abbrev pub Keeps : (W → Type 0) → Exec W E A → Type 0
  Keeps I m = Meets I I m (λ _. I)

module _ {W E A : Type 0} (X : W → Type 0) {Q Q' : A → W → Type 0} where
  Ends-weaken :
      (r : Outcome E A × W) → Ends Q' X r → ((a : A) (w : W) → Q' a w → Q a w) → Ends Q X r
  Ends-weaken (ok a, w) h k = k a w h
  Ends-weaken (err e, w) h k = h
  Ends-weaken (panic, w) h k = h
  Ends-weaken (timeout, w) h k = h

module _ {W E A : Type 0} {P X : W → Type 0} {Q : A → W → Type 0} where
  pub Meets-pure : (a : A) → ((w : W) → P w → Q a w) → Meets {E = E} P X (pure a) Q
  Meets-pure a h = record { at = h }

  pub Meets-if :
      (b : Bool) (m n : Exec W E A)
      → (b ≡ true → Meets P X m Q)
      → (b ≡ false → Meets P X n Q)
      → Meets P X (if b then m else n) Q
  Meets-if true m n h k = h refl
  Meets-if false m n h k = k refl

  pub Meets-option :
      {B : Type 0} (o : Option B) (m : Exec W E A) (f : B → Exec W E A)
      → (o ≡ none → Meets P X m Q)
      → ((b : B) → o ≡ some b → Meets P X (f b) Q)
      → Meets P X (elim o [ none ↦ m | some b ↦ f b ]) Q
  Meets-option none m f h k = h refl
  Meets-option (some b) m f h k = k b refl

  pub Meets-weaken :
      {P' : W → Type 0} {Q' : A → W → Type 0} {m : Exec W E A}
      → Meets P' X m Q'
      → ((w : W) → P w → P' w)
      → ((a : A) (w : W) → Q' a w → Q a w)
      → Meets P X m Q
  Meets-weaken {m = m} h p q = record { at = λ w k. Ends-weaken X (m w) (h.at w (p w k)) q }

  -- A weaker condition for failures.
  pub Meets-fails :
      {Y : W → Type 0} {m : Exec W E A} → Meets P Y m Q → ((w : W) → Y w → X w) → Meets P X m Q
  Meets-fails {Y = Y} {m = m} h k = record { at = λ w p. Ends-fails Y Q X (m w) (h.at w p) k }

module _ {W E A B : Type 0} (X : W → Type 0) {Q : A → W → Type 0} {R : B → W → Type 0} where
  continue-Ends :
      (f : A → Exec W E B) (r : Outcome E A × W)
      → Ends Q X r
      → ((a : A) → Meets (Q a) X (f a) R)
      → Ends R X (continue f r)
  continue-Ends f (ok a, w) h k = (k a).at w h
  continue-Ends f (err e, w) h k = h
  continue-Ends f (panic, w) h k = h
  continue-Ends f (timeout, w) h k = h

module _ {W E A B : Type 0} {P X : W → Type 0} {Q : A → W → Type 0} {R : B → W → Type 0} where
  pub Meets-bind :
      {m : Exec W E A} {f : A → Exec W E B}
      → Meets P X m Q
      → ((a : A) → Meets (Q a) X (f a) R)
      → Meets P X (m >>= f) R
  unfolding ◌>>=◌
  Meets-bind {m = m} {f = f} h k = record { at = λ w p. continue-Ends X f (m w) (h.at w p) k }

module _ {W E A : Type 0} (I : W → Type 0) where
  attempted-Ends : (r : Outcome E A × W) → Ends (λ _. I) I r → Ends (λ _. I) I (attempted r)
  attempted-Ends (ok a, w) h = h
  attempted-Ends (err e, w) h = h
  attempted-Ends (panic, w) h = h
  attempted-Ends (timeout, w) h = h

module _ {W E : Type 0} {I : W → Type 0} where
  module _ {A : Type 0} where
    pub Keeps-pure : (a : A) → Keeps {E = E} I (pure a)
    Keeps-pure a = record { at = λ w h. h }

    pub Keeps-lift : (r : Outcome E A) → Keeps I (lift r)
    Keeps-lift (ok a) = record { at = λ w h. h }
    Keeps-lift (err e) = record { at = λ w h. h }
    Keeps-lift panic = record { at = λ w h. h }
    Keeps-lift timeout = record { at = λ w h. h }

    pub Keeps-attempt : {m : Exec W E A} → Keeps I m → Keeps I (attempt m)
    unfolding attempt
    Keeps-attempt {m = m} k = record { at = λ w h. attempted-Ends I (m w) (k.at w h) }

  pub Keeps-when : (b : Bool) {m : Done W E} → Keeps I m → Keeps I (when b m)
  unfolding when
  Keeps-when true k = k
  Keeps-when false k = Keeps-pure tt

  pub Keeps-for_each :
      {A : Type 0} (body : A → Done W E) (xs : List A)
      → ((a : A) → Keeps I (body a))
      → Keeps I (for_each body xs)
  unfolding for_each
  Keeps-for_each body [] k = Keeps-pure tt
  Keeps-for_each body (x ∷ xs) k = Meets-bind (k x) λ _. Keeps-for_each body xs k

module _ {W E : Type 0} {P X Q : W → Type 0} where
  pub Meets-when :
      (b : Bool) {m : Done W E}
      → (b ≡ true → Meets P X m (λ _. Q))
      → (b ≡ false → (w : W) → P w → Q w)
      → Meets P X (when b m) (λ _. Q)
  unfolding when
  Meets-when true h k = h refl
  Meets-when false h k = record { at = k refl }

-- A fact beside the state goes over to the hypotheses.
module _ {W E A F : Type 0} {P X : W → Type 0} {Q : A → W → Type 0} where
  pub Meets-fact : {m : Exec W E A} → (F → Meets P X m Q) → Meets (λ w. P w × F) X m Q
  Meets-fact h = record { at = λ w (p, f). (h f).at w p }
