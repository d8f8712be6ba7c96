-- ===== src/DhcpService/Pool/Bounds.antt =====
-- The addresses of the pool of services/dhcp/src/pool.rs stay in its range, and are distinct until
-- the range is used up.
use lentropy.Common.{
  ℕ, ◌+◌, ◌≤◌, ◌<◌, ◌≡◌, ◌≢◌, inl, inr, some, List, [], ◌∷◌, All, All-map, Option-cases, Bool-cases,
  length, text_eq, text_eq_iff, arith,
}
use lentropy.DhcpService.Pool.{
  PoolInner, LeasePool, u32_mod, new, get_lease, lease_key, allocate, get_or_allocate,
}
use lentropy.DhcpService.Pool.Allocation.{ask_all}

-- Every lease lies between the first address and the next one.
abbrev pub Within : ℕ → ℕ → List (List ℕ × ℕ) → Type 0
Within lo hi = All (λ l. (lo ≤ l.1) × (l.1 < hi))

-- The range is not empty and does not end at 255.255.255.255.
pub record IsValid (p : PoolInner) : Type 0 where
  pub range : p.start ≤ p.end
  pub last : p.end + 1 < u32_mod
  pub begun : p.start ≤ p.next
  pub bounded : p.next ≤ p.end + 1
  pub within : Within p.start p.next p.leases

Within-grow :
    (lo hi : ℕ) (leases : List (List ℕ × ℕ)) → Within lo hi leases → Within lo (hi + 1) leases
Within-grow lo hi [] w = tt
Within-grow lo hi (l ∷ leases) w = (omega arith, Within-grow lo hi leases w.1)

Within-lookup :
    (lo hi : ℕ) (key : List ℕ) (leases : List (List ℕ × ℕ)) (ip : ℕ)
    → Within lo hi leases
    → get_lease key leases ≡ some ip
    → (lo ≤ ip) × (ip < hi)
unfolding get_lease
Within-lookup lo hi key [] ip w h = absurd (ground arith)
Within-lookup lo hi key (l ∷ leases) ip w h = elim (Bool-cases (text_eq l.0 key)) [
  | inl e ↦ let same : l.1 ≡ ip = ground arith in rw (← same) w.0
  | inr e ↦ Within-lookup lo hi key leases ip w.1 (ground arith)
]

allocate-IsValid :
    (p : PoolInner) (key : List ℕ)
    → IsValid p
    → (p.start ≤ (allocate p key).0) × ((allocate p key).0 ≤ p.end) × IsValid (allocate p key).1
unfolding allocate
allocate-IsValid p key v =
    let grown = Within-grow p.start p.next p.leases v.within in ground (arith, grown)

-- From a valid pool every client gets an address of the range, and the pool stays valid, also when
-- the range is used up.
pub get_or_allocate-IsValid :
    (pool : LeasePool) (mac : List ℕ)
    → IsValid pool.inner
    → (pool.start ≤ (get_or_allocate pool mac).0)
      × ((get_or_allocate pool mac).0 ≤ pool.end)
      × IsValid (get_or_allocate pool mac).1.inner
unfolding get_or_allocate
get_or_allocate-IsValid pool mac v = elim (Option-cases (get_lease (lease_key mac) pool.leases)) [
  | inl e ↦ rw e (allocate-IsValid pool.inner (lease_key mac) v)
  | inr (ip, e) ↦
      let (lo, hi) = Within-lookup pool.start pool.next (lease_key mac) pool.leases ip v.within e in
      let b = v.bounded in rw e (lo, omega arith, v)
]

-- No two leases are for one address.
abbrev pub Distinct : List (List ℕ × ℕ) → Type 0
Distinct [] = Unit {0}
Distinct (l ∷ leases) = All (λ m. m.1 ≢ l.1) leases × Distinct leases

lookup_ne :
    (leases : List (List ℕ × ℕ)) (key : List ℕ) (x y : ℕ)
    → All (λ m. m.1 ≢ x) leases
    → get_lease key leases ≡ some y
    → y ≢ x
unfolding get_lease
lookup_ne [] key x y all h = absurd (ground arith)
lookup_ne (m ∷ rest) key x y all h = ground (arith, lookup_ne rest key x y all.1)

Distinct-lookup :
    (leases : List (List ℕ × ℕ)) (j k : List ℕ) (a b : ℕ)
    → Distinct leases
    → get_lease j leases ≡ some a
    → get_lease k leases ≡ some b
    → j ≢ k
    → a ≢ b
unfolding get_lease
Distinct-lookup [] j k a b d h i ne = absurd (ground arith)
Distinct-lookup (l ∷ leases) j k a b d h i ne = ground (
  arith,
  text_eq_iff l.0 j,
  text_eq_iff l.0 k,
  Distinct-lookup leases j k a b d.1,
  lookup_ne leases j l.1 a d.0,
  lookup_ne leases k l.1 b d.0,
)

Within-fresh :
    (lo hi : ℕ) (leases : List (List ℕ × ℕ)) → Within lo hi leases → All (λ m. m.1 ≢ hi) leases
Within-fresh lo hi leases w = All-map leases (λ m h. omega arith) w

ask-Distinct :
    (pool : LeasePool) (mac : List ℕ)
    → IsValid pool.inner
    → pool.next ≤ pool.end
    → Distinct pool.leases
    → Distinct (get_or_allocate pool mac).1.leases
unfolding get_or_allocate allocate
ask-Distinct pool mac v room d =
    let fresh = Within-fresh pool.start pool.next pool.leases v.within in ground (arith, fresh)

ask-next :
    (pool : LeasePool) (mac : List ℕ)
    → IsValid pool.inner
    → ((get_or_allocate pool mac).1.next ≤ pool.next + 1)
      × ((get_or_allocate pool mac).1.end ≡ pool.end)
unfolding get_or_allocate allocate
ask-next pool mac v = ground arith

ask_all-Distinct :
    (pool : LeasePool) (macs : List (List ℕ))
    → IsValid pool.inner
    → Distinct pool.leases
    → pool.next + length macs ≤ pool.end + 1
    → Distinct (ask_all pool macs).leases
ask_all-Distinct pool [] v d room = d
ask_all-Distinct pool (mac ∷ rest) v d room =
    let (next, same) = ask-next pool mac v in
    ask_all-Distinct (get_or_allocate pool mac).1 rest (get_or_allocate-IsValid pool mac v).2
      (ask-Distinct pool mac v (omega arith) d) (omega arith)

pub new-IsValid :
    (start end mask gateway : ℕ)
    → start ≤ end
    → end + 1 < u32_mod
    → IsValid (new start end mask gateway).inner
unfolding new
new-IsValid start end mask gateway range last = record {
  range = range;
  last = last;
  begun = omega arith;
  bounded = omega arith;
  within = tt;
}

-- While a new pool, whose range is not empty and does not end at the last address, has answered no
-- more requests than it has addresses, two clients that differ in the first six bytes of their
-- hardware addresses hold different addresses.
pub leases_differ :
    (start end mask gateway : ℕ) (macs : List (List ℕ)) (j k : List ℕ) (a b : ℕ)
    → start ≤ end
    → end + 1 < u32_mod
    → start + length macs ≤ end + 1
    → lease_key j ≢ lease_key k
    → get_lease (lease_key j) (ask_all (new start end mask gateway) macs).leases ≡ some a
    → get_lease (lease_key k) (ask_all (new start end mask gateway) macs).leases ≡ some b
    → a ≢ b
unfolding new
leases_differ start end mask gateway macs j k a b range last room ne ha hb =
    Distinct-lookup (ask_all (new start end mask gateway) macs).leases (lease_key j) (lease_key k) a
      b
      (ask_all-Distinct (new start end mask gateway) macs
        (new-IsValid start end mask gateway range last) tt room)
      ha hb ne
