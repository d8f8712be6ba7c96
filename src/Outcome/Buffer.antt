-- ===== src/Outcome/Buffer.antt =====
-- Reads from a buffer that is known as a concatenation.
use mathlib.Core.List.{append_assoc}
use lentropy.Common.{
  ℕ, ◌+◌, ◌-◌, ◌≡◌, sym, ap, List, [], ◌∷◌, ◌++◌, length, length-append, take-append, drop-append,
  get_elem?-append, arith,
}
use lentropy.Outcome.{ok, index, slice, index-some, slice_in}

-- A prefix and one more element.
pub append_snoc {ℓ} :
    {A : Type ℓ} (pre : List A) (x : A) (rest : List A) → pre ++ x ∷ rest ≡ (pre ++ x ∷ []) ++ rest
append_snoc pre x rest = sym (append_assoc pre (x ∷ []) rest)

module _ {E : Type 0} where
  pub index_at :
      (pre : List ℕ) (b : ℕ) (rest : List ℕ) (i : ℕ)
      → i ≡ length pre
      → index {E = E} (pre ++ b ∷ rest) i ≡ ok b
  index_at pre b rest i e = rw e (index-some _ _ b (get_elem?-append pre rest b))

  -- The byte behind that.
  pub index_next :
      (pre : List ℕ) (a b : ℕ) (rest : List ℕ)
      → index {E = E} (pre ++ a ∷ b ∷ rest) (length pre + 1) ≡ ok b
  index_next pre a b rest =
      rw (append_snoc pre a (b ∷ rest))
        (index_at (pre ++ a ∷ []) b rest _ (omega (arith, length-append pre (a ∷ []))))

  pub slice_at :
      (pre bytes rest : List ℕ) (lo hi : ℕ)
      → lo ≡ length pre
      → hi ≡ length pre + length bytes
      → slice {E = E} (pre ++ (bytes ++ rest)) lo hi ≡ ok bytes
  slice_at pre bytes rest lo hi e f =
      let width : hi - lo ≡ length bytes = omega arith in
      rw
        (slice_in {E = E} (pre ++ (bytes ++ rest)) lo hi (omega arith)
          (omega (arith, length-append pre (bytes ++ rest), length-append bytes rest)))
        (ap ok (rw (width, e, drop-append pre (bytes ++ rest)) (take-append bytes rest)))
