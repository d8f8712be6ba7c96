-- ===== src/PolicyManager/Evaluate/Versions.antt =====
-- The order of version numbers in services/policy-manager/src/api/evaluate.rs.
use native.Mathlib.Omega.{arith}
use lentropy.Common.{
  ℕ, zero, suc, ◌^◌, ◌<◌, List, [], ◌∷◌, All, ◌≡◌, refl, sym, inl, inr, Bool-cases, ltb,
}
use lentropy.PolicyManager.Evaluate.{
  Order, less, equal, greater, compare_ℕ, then_order, compare_parts, compare_os_version,
}
use lentropy.PolicyManager.Evaluate.Dotted.{dotted, parse_version-dotted}

-- A part that is missing is zero.
abbrev pub part : List ℕ → ℕ → ℕ
part [] i = 0
part (x ∷ xs) zero = x
part (x ∷ xs) (suc i) = part xs i

-- The first part that differs decides.
abbrev pub Below : List ℕ → List ℕ → Type 0
Below xs ys = (k : ℕ) × ((i : ℕ) → i < k → part xs i ≡ part ys i) × (part xs k < part ys k)

abbrev pub Compares : List ℕ → List ℕ → Order → Type 0
Compares xs ys less = Below xs ys
Compares xs ys equal = (i : ℕ) → part xs i ≡ part ys i
Compares xs ys greater = Below ys xs

abbrev rest_of : List ℕ → List ℕ
rest_of [] = []
rest_of (x ∷ xs) = xs

part-suc : (xs : List ℕ) (i : ℕ) → part xs (suc i) ≡ part (rest_of xs) i
part-suc [] i = refl
part-suc (x ∷ xs) i = refl

later : (xs ys : List ℕ) → part xs 0 ≡ part ys 0 → Below (rest_of xs) (rest_of ys) → Below xs ys
later xs ys h (k, same, lt) = (suc k, before, rw (part-suc xs k, part-suc ys k) lt)
  where
    before : (i : ℕ) → i < suc k → part xs i ≡ part ys i
    before zero j = h
    before (suc i) j = rw (part-suc xs i, part-suc ys i) (same i (omega arith))

all_same :
    (xs ys : List ℕ)
    → part xs 0 ≡ part ys 0
    → ((i : ℕ) → part (rest_of xs) i ≡ part (rest_of ys) i)
    → (i : ℕ) → part xs i ≡ part ys i
all_same xs ys h k zero = h
all_same xs ys h k (suc i) = rw (part-suc xs i, part-suc ys i) (k i)

first_differs : (xs ys : List ℕ) → part xs 0 < part ys 0 → Below xs ys
first_differs xs ys h = (0, λ i j. absurd (omega arith), h)

behind :
    (xs ys : List ℕ) (o : Order)
    → part xs 0 ≡ part ys 0
    → Compares (rest_of xs) (rest_of ys) o
    → Compares xs ys o
behind xs ys less e h = later xs ys e h
behind xs ys equal e h = all_same xs ys e h
behind xs ys greater e h = later ys xs (sym e) h

step :
    (xs ys : List ℕ) (o : Order)
    → Compares (rest_of xs) (rest_of ys) o
    → Compares xs ys (then_order (compare_ℕ (part xs 0) (part ys 0)) o)
unfolding compare_ℕ
step xs ys o h = elim (Bool-cases (ltb (part xs 0) (part ys 0))) [
  | inl lt ↦ rw lt (first_differs xs ys (ground arith))
  | inr ge ↦ elim (Bool-cases (ltb (part ys 0) (part xs 0))) [
    | inl gt ↦ rw (ge, gt) (first_differs ys xs (ground arith))
    | inr le ↦ rw (ge, le) (behind xs ys o (ground arith) h)
  ]
]

compare_parts-Compares : (xs ys : List ℕ) → Compares xs ys (compare_parts xs ys)
unfolding compare_parts
compare_parts-Compares [] [] = λ i. refl
compare_parts-Compares [] (y ∷ ys) = step [] (y ∷ ys) _ (compare_parts-Compares [] ys)
compare_parts-Compares (x ∷ xs) [] = step (x ∷ xs) [] _ (compare_parts-Compares xs [])
compare_parts-Compares (x ∷ xs) (y ∷ ys) = step (x ∷ xs) (y ∷ ys) _ (compare_parts-Compares xs ys)

-- Two versions that are written as numbers of 64 bits in decimal, joined by ".", compare as their
-- lists of numbers do, where missing numbers are zero: the answer is "less" only if at the first
-- place where they differ the first version has the smaller number, "greater" only if it has the
-- greater one, and "equal" only if they differ nowhere.
pub compare_os_version-dotted :
    (xs ys : List ℕ)
    → All (λ n. n < 2 ^ 64) xs
    → All (λ n. n < 2 ^ 64) ys
    → Compares xs ys (compare_os_version (dotted xs) (dotted ys))
unfolding compare_os_version
compare_os_version-dotted xs ys h k =
    rw (parse_version-dotted xs h, parse_version-dotted ys k) (compare_parts-Compares xs ys)
