-- ===== src/DhcpService/Pool.antt =====
-- services/dhcp/src/pool.rs: the table of leases. An address is the `u32` that it is made from; the
-- hash map is an association list, whose order nothing reads; the mutex makes a call one step.
pub mod Allocation
pub mod Bounds
use lentropy.Common.{
  ℕ, ◌+◌, ◌%◌, ◌^◌, Option, none, some, List, [], ◌∷◌, take, min, length, leb, Text, text_eq,
  if◌then◌else◌,
}

pub record PoolInner : Type 0 where
  pub leases : List (List ℕ × ℕ)
  pub next : ℕ
  pub start : ℕ
  pub end : ℕ

pub record LeasePool : Type 0 where
  pub inner : PoolInner
  pub open inner use *
  pub subnet_mask : ℕ
  pub gateway : ℕ

abbrev pub u32_mod : ℕ
u32_mod = 2 ^ 32

unfoldable pub new : ℕ → ℕ → ℕ → ℕ → LeasePool
new pool_start pool_end subnet_mask gateway = record {
  inner = record { leases = []; next = pool_start; start = pool_start; end = pool_end };
  subnet_mask = subnet_mask;
  gateway = gateway;
}

-- `HashMap::get`, and `HashMap::insert` of a key that is not there.
unfoldable pub get_lease : List ℕ → List (List ℕ × ℕ) → Option ℕ
unfolding text_eq
get_lease key [] = none
get_lease key ((k, ip) ∷ rest) = if text_eq k key then some ip else get_lease key rest

-- `mac[..6.min(mac.len())]`.
abbrev pub lease_key : List ℕ → List ℕ
lease_key mac = take (min 6 (length mac)) mac

-- `next += 1` on a `u32` wraps, as in a build without overflow checks.
unfoldable pub allocate : PoolInner → List ℕ → ℕ × PoolInner
allocate pool key =
    if leb pool.next pool.end
    then (
      pool.next,
      record pool { leases = (key, pool.next) ∷ pool.leases; next = (pool.next + 1) % u32_mod },
    )
    else (pool.start, record pool { leases = (key, pool.start) ∷ pool.leases })

abbrev or_allocate : PoolInner → List ℕ → Option ℕ → ℕ × PoolInner
or_allocate pool key (some ip) = (ip, pool)
or_allocate pool key none = allocate pool key

unfoldable pub get_or_allocate : LeasePool → List ℕ → ℕ × LeasePool
unfolding get_lease allocate
get_or_allocate pool mac =
    let key = lease_key mac in
    let (ip, inner) = or_allocate pool.inner key (get_lease key pool.leases) in
    (ip, record pool { inner = inner })
