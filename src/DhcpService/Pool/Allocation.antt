-- ===== src/DhcpService/Pool/Allocation.antt =====
-- Who gets which address from the pool of services/dhcp/src/pool.rs.
use lentropy.Common.{ℕ, ◌≡◌, some, List, [], ◌∷◌, text_eq_iff, text_eq_refl, arith}
use lentropy.DhcpService.Pool.{LeasePool, get_lease, lease_key, get_or_allocate}

-- A client that asks again, whatever others asked for in between, gets what it was given.
abbrev pub ask_all : LeasePool → List (List ℕ) → LeasePool
ask_all pool [] = pool
ask_all pool (mac ∷ rest) = ask_all (get_or_allocate pool mac).1 rest

-- The lease of a key stays while other keys are asked for.
get_lease-ask :
    (pool : LeasePool) (key : List ℕ) (ip : ℕ) (mac : List ℕ)
    → get_lease key pool.leases ≡ some ip
    → get_lease key (get_or_allocate pool mac).1.leases ≡ some ip
unfolding get_or_allocate get_lease
get_lease-ask pool key ip mac h = ground (arith, text_eq_iff (lease_key mac) key)

get_lease-ask_all :
    (pool : LeasePool) (key : List ℕ) (ip : ℕ) (macs : List (List ℕ))
    → get_lease key pool.leases ≡ some ip
    → get_lease key (ask_all pool macs).leases ≡ some ip
get_lease-ask_all pool key ip [] h = h
get_lease-ask_all pool key ip (mac ∷ rest) h =
    get_lease-ask_all (get_or_allocate pool mac).1 key ip rest (get_lease-ask pool key ip mac h)

get_lease_self :
    (pool : LeasePool) (mac : List ℕ)
    → get_lease (lease_key mac) (get_or_allocate pool mac).1.leases
      ≡ some (get_or_allocate pool mac).0
unfolding get_or_allocate get_lease
get_lease_self pool mac = ground (arith, text_eq_refl (lease_key mac))

ask_known :
    (pool : LeasePool) (mac : List ℕ) (ip : ℕ)
    → get_lease (lease_key mac) pool.leases ≡ some ip
    → (get_or_allocate pool mac).0 ≡ ip
unfolding get_or_allocate
ask_known pool mac ip h = ground arith

-- A client keeps its address: it gets the same one again after any requests of other clients, also
-- when the pool has run out in between.
pub lease_is_kept :
    (pool : LeasePool) (mac : List ℕ) (others : List (List ℕ))
    → (get_or_allocate (ask_all (get_or_allocate pool mac).1 others) mac).0
      ≡ (get_or_allocate pool mac).0
lease_is_kept pool mac others =
    ask_known (ask_all (get_or_allocate pool mac).1 others) mac (get_or_allocate pool mac).0 (
      get_lease-ask_all (get_or_allocate pool mac).1 (lease_key mac) _ others
        (get_lease_self pool mac))
