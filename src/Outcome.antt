-- ===== src/Outcome.antt =====
-- The results of Rust code that may return an error or panic, and the byte buffers that the packet
-- parsers index. A loop that runs on fuel ends in `timeout` when the fuel is used up, so that a
-- theorem that says "returns" excludes this too.
pub mod Buffer
use lentropy.Common.{
  ℕ, zero, suc, ◌+◌, ◌-◌, ◌*◌, ◌≤◌, ◌<◌, ◌≡◌, refl, Option, none, some, List, [], ◌∷◌, length,
  get_elem?, get_elem?_in, take, drop, leb, le→leb, if◌then◌else◌, Bool, true, false, ◌&&◌, arith,
  refl, length-take, length-drop,
}

pub data Outcome {ℓ} (E : Type 0) (A : Type ℓ) : Type ℓ where
  ok : A → Outcome E A
  err : E → Outcome E A
  panic : Outcome E A
  timeout : Outcome E A

infixl 5 ◌>>=◌ ◌>>◌
abbrev pub ◌>>=◌ {ℓ κ} :
    {E : Type 0} {A : Type ℓ} {B : Type κ} → Outcome E A → (A → Outcome E B) → Outcome E B
ok a >>= f = f a
err e >>= f = err e
panic >>= f = panic
timeout >>= f = timeout

abbrev pub ◌>>◌ {ℓ} : {E : Type 0} {B : Type ℓ} → Outcome E (Unit {0}) → Outcome E B → Outcome E B
m >> k = m >>= λ _. k

abbrev pub map_ok {ℓ κ} :
    {E : Type 0} {A : Type ℓ} {B : Type κ} → (A → B) → Outcome E A → Outcome E B
map_ok f m = m >>= λ a. ok (f a)

-- `xs.iter().map(f).collect::<Result<Vec<_>, _>>()`.
unfoldable pub collect {ℓ κ} :
    {E : Type 0} {A : Type ℓ} {B : Type κ} → (A → Outcome E B) → List A → Outcome E (List B)
collect f [] = ok []
collect f (x ∷ xs) = f x >>= λ y. map_ok (λ ys. y ∷ ys) (collect f xs)

-- `if b { return Err(e) }`.
unfoldable pub bail_if : {E : Type 0} → Bool → E → Outcome E (Unit {0})
bail_if true e = err e
bail_if false e = ok tt

-- The code returns a value or an error: it neither panics nor loops.
pub data Returns {ℓ} {E : Type 0} {A : Type ℓ} : Outcome E A → Type ℓ where
  value : (a : A) → Returns (ok a)
  failure : (e : E) → Returns (err e)

module _ {E : Type 0} where
  -- `buf[i]`.
  unfoldable pub index : List ℕ → ℕ → Outcome E ℕ
  index xs i = elim (get_elem? xs i) [ some x ↦ ok x | none ↦ panic ]

  -- `&buf[lo..hi]`.
  unfoldable pub slice : List ℕ → ℕ → ℕ → Outcome E (List ℕ)
  slice xs lo hi =
      if leb lo hi && leb hi (length xs) then ok (take (hi - lo) (drop lo xs)) else panic

  pub index_in : (xs : List ℕ) (i : ℕ) → i < length xs → (b : ℕ) × (index xs i ≡ ok b)
  unfolding index
  index_in xs i h = let (b, e) = get_elem?_in xs i h in (b, rw (e, index))

  pub index-some : (xs : List ℕ) (i b : ℕ) → get_elem? xs i ≡ some b → index xs i ≡ ok b
  unfolding index
  index-some xs i b e = rw (e, index)

  pub slice_in :
      (xs : List ℕ) (lo hi : ℕ)
      → lo ≤ hi
      → hi ≤ length xs
      → slice xs lo hi ≡ ok (take (hi - lo) (drop lo xs))
  unfolding slice
  slice_in xs lo hi h k = rw (le→leb lo hi h, le→leb hi (length xs) k)

-- `[u8; 6]`, an IPv4 address as its octets, an IPv6 address.
abbrev pub Mac : Type 0
Mac = ℕ × ℕ × ℕ × ℕ × ℕ × ℕ

abbrev pub Ipv4 : Type 0
Ipv4 = ℕ × ℕ × ℕ × ℕ

abbrev pub mac_bytes : Mac → List ℕ
mac_bytes (a, b, c, d, e, f) = a ∷ b ∷ c ∷ d ∷ e ∷ f ∷ []

abbrev pub ipv4_octets : Ipv4 → List ℕ
ipv4_octets (a, b, c, d) = a ∷ b ∷ c ∷ d ∷ []

-- `[u8; 6]::copy_from_slice`, which panics at another length.
abbrev pub to_mac : {E : Type 0} → List ℕ → Outcome E Mac
to_mac (a ∷ b ∷ c ∷ d ∷ e ∷ f ∷ []) = ok (a, b, c, d, e, f)
to_mac _ = panic

-- `[u8; 16]`.
abbrev pub Octets16 : Type 0
Octets16 = ℕ × ℕ × ℕ × ℕ × ℕ × ℕ × ℕ × ℕ × ℕ × ℕ × ℕ × ℕ × ℕ × ℕ × ℕ × ℕ

abbrev pub octets16_bytes : Octets16 → List ℕ
octets16_bytes (a, b, c, d, e, f, g, h, i, j, k, l, m, n, o, p) =
    a ∷ b ∷ c ∷ d ∷ e ∷ f ∷ g ∷ h ∷ i ∷ j ∷ k ∷ l ∷ m ∷ n ∷ o ∷ p ∷ []

abbrev pub to_octets16 : {E : Type 0} → List ℕ → Outcome E Octets16
to_octets16 (a ∷ b ∷ c ∷ d ∷ e ∷ f ∷ g ∷ h ∷ i ∷ j ∷ k ∷ l ∷ m ∷ n ∷ o ∷ p ∷ []) =
    ok (a, b, c, d, e, f, g, h, i, j, k, l, m, n, o, p)
to_octets16 _ = panic

abbrev pub Ipv6 : Type 0
Ipv6 = Octets16

-- `u16::from_be_bytes` and `u32::from_be_bytes`.
abbrev pub be16 : ℕ → ℕ → ℕ
be16 a b = a * 256 + b

abbrev pub be32 : ℕ → ℕ → ℕ → ℕ → ℕ
be32 a b c d = ((a * 256 + b) * 256 + c) * 256 + d

-- One rule for each way in which the parsers go on.
module _ {E : Type 0} {B : Type 0} where
  pub bail_then :
      (b : Bool) (e : E) (rest : Outcome E B)
      → (b ≡ false → Returns rest)
      → Returns (bail_if b e >> rest)
  unfolding bail_if
  bail_then true e rest h = failure e
  bail_then false e rest h = h refl

  pub bind_then {κ} :
      {A : Type κ} (m : Outcome E A) (f : A → Outcome E B)
      → Returns m
      → ((a : A) → Returns (f a))
      → Returns (m >>= f)
  bind_then (ok a) f r h = h a
  bind_then (err e) f r h = failure e
  bind_then panic f r h = elim r [ ]
  bind_then timeout f r h = elim r [ ]

  pub index_then :
      (xs : List ℕ) (i : ℕ) (f : ℕ → Outcome E B)
      → i < length xs
      → ((b : ℕ) → Returns (f b))
      → Returns (index xs i >>= f)
  index_then xs i f h k = let (b, e) = index_in {E = E} xs i h in rw e (k b)

  pub slice_then :
      (xs : List ℕ) (lo hi : ℕ) (f : List ℕ → Outcome E B)
      → lo ≤ hi
      → hi ≤ length xs
      → ((ys : List ℕ) → length ys + lo ≡ hi → Returns (f ys))
      → Returns (slice xs lo hi >>= f)
  slice_then xs lo hi f h k r =
      rw (slice_in {E = E} xs lo hi h k)
        (r _ (omega (arith, length-take (hi - lo) (drop lo xs), length-drop lo xs)))

  pub mac_then :
      (xs : List ℕ) (f : Mac → Outcome E B)
      → length xs ≡ 6
      → ((m : Mac) → Returns (f m))
      → Returns (to_mac xs >>= f)
  mac_then (a ∷ b ∷ c ∷ d ∷ e ∷ f ∷ []) g h k = k (a, b, c, d, e, f)
  mac_then xs g h k = absurd (omega arith)

  pub octets16_then :
      (xs : List ℕ) (f : Octets16 → Outcome E B)
      → length xs ≡ 16
      → ((x : Octets16) → Returns (f x))
      → Returns (to_octets16 xs >>= f)
  octets16_then (a ∷ b ∷ c ∷ d ∷ e ∷ f ∷ g ∷ h ∷ i ∷ j ∷ k ∷ l ∷ m ∷ n ∷ o ∷ p ∷ []) z q r =
      r (a, b, c, d, e, f, g, h, i, j, k, l, m, n, o, p)
  octets16_then xs z q r = absurd (omega arith)
