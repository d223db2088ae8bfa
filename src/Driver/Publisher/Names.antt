-- ===== src/Driver/Publisher/Names.antt =====
-- The forms of device names, and what keeps them apart (pkg/driver/publisher.go).
use dra_multi_things.Base.{
  ℕ, ◌+◌, ◌≡◌, ◌≢◌, refl, ap, sym, ◌∙◌, Str, nat_eq, lit, true, false, [], ◌∷◌, ◌++◌, ◌==◌,
  if◌then◌else◌, ◌⊎◌, inl, inr, arith,
}
use dra_multi_things.Base.Strings.{has_prefix, contains_str}
use dra_multi_things.Driver.Publisher.{is_allocatable_interface}

-- How many dashes a text has.
abbrev pub dashes : Str → ℕ
dashes [] = 0
dashes (b ∷ s) = (if b == b'-' then 1 else 0) + dashes s

-- An interface name that no other form of name can equal.
abbrev pub Plain : Str → Type 0
Plain n = (dashes n ≡ 0) × (has_prefix n (lit "uverbs") ≡ false)

-- The name of a network device: the interface's, or that behind `netdev-`.
abbrev pub NetName : Str → Type 0
NetName s = Plain s ⊎ ((m : Str) × (s ≡ lit "netdev-" ++ m) × (dashes m ≡ 0) × (m ≢ lit "virtual"))

abbrev pub RdmaName : Str → Type 0
RdmaName s = has_prefix s (lit "uverbs") ≡ true

-- The name of a pool on a parent.
abbrev pub pool_name : Str → Str → Str
pool_name kind parent = parent ++ (b'-' ∷ (kind ++ lit "-pool"))

abbrev pub PoolName : Str → Type 0
PoolName s = (m : Str) × (k : Str) × (s ≡ pool_name k m) × Plain m

dashes-append : (s t : Str) → dashes (s ++ t) ≡ dashes s + dashes t
dashes-append [] t = omega arith
dashes-append (b ∷ s) t = omega (arith, dashes-append s t)

-- A dash ends the part that a prefix without dashes can reach.
prefix-dash :
    (n t p : Str) → dashes p ≡ 0 → has_prefix (n ++ (b'-' ∷ t)) p ≡ true → has_prefix n p ≡ true
unfolding has_prefix
prefix-dash n t [] d h = refl
prefix-dash [] t (c ∷ p) d h = ground arith
prefix-dash (b ∷ n) t (c ∷ p) d h = ground (arith, prefix-dash n t p)

-- What stands before the first dash, and what behind it.
pub append_dash_inj :
    (n m s t : Str)
    → dashes n ≡ 0
    → dashes m ≡ 0
    → n ++ (b'-' ∷ s) ≡ m ++ (b'-' ∷ t)
    → (n ≡ m) × (s ≡ t)
append_dash_inj [] [] s t p q h = ground arith
append_dash_inj [] (c ∷ m) s t p q h = ground arith
append_dash_inj (b ∷ n) [] s t p q h = ground arith
append_dash_inj (b ∷ n) (c ∷ m) s t p q h = ground (arith, append_dash_inj n m s t)

-- No name of a network device is that of an RDMA device.
netdev-not-uverbs : (m : Str) → has_prefix (lit "netdev-" ++ m) (lit "uverbs") ≡ false
unfolding has_prefix lit nat_eq
netdev-not-uverbs m = refl

dashes-lit_uverbs : dashes (lit "uverbs") ≡ 0
unfolding lit nat_eq
dashes-lit_uverbs = refl

pub net-ne-rdma : (s t : Str) → NetName s → RdmaName t → s ≢ t
net-ne-rdma s t (inl (d, u)) q e = cc
net-ne-rdma s t (inr (m, f, d, v)) q e = cc (netdev-not-uverbs m)

pub rdma-ne-pool : (s t : Str) → RdmaName s → PoolName t → s ≢ t
rdma-ne-pool s t q (m, k, e, p) h = ground (
  arith,
  prefix-dash m (k ++ lit "-pool") (lit "uverbs") dashes-lit_uverbs,
  ap (λ x. has_prefix x (lit "uverbs")) (h ∙ e),
)

-- One dash against two.
pub dashes-netdev : (m : Str) → dashes (lit "netdev-" ++ m) ≡ dashes m + 1
unfolding lit nat_eq
dashes-netdev m = omega arith

dashes-pool_name : (k m : Str) → dashes (pool_name k m) ≡ dashes m + dashes k + 2
unfolding lit nat_eq
dashes-pool_name k m =
    omega (arith, dashes-append m (b'-' ∷ (k ++ lit "-pool")), dashes-append k (lit "-pool"))

pub net-ne-pool : (s t : Str) → NetName s → PoolName t → s ≢ t
net-ne-pool s t (inl p) (m, k, e, q) h =
    omega (arith, ap dashes h, ap dashes e, dashes-pool_name k m)
net-ne-pool s t (inr (n, e, d, v)) (m, k, f, q) h =
    omega (arith, ap dashes h, ap dashes e, ap dashes f, dashes-pool_name k m, dashes-netdev n)

pub netdev_inj : (m n : Str) → lit "netdev-" ++ m ≡ lit "netdev-" ++ n → m ≡ n
unfolding lit
netdev_inj m n h = cc

-- The one virtual device.
virtual_lem : lit "netdev-virtual" ≡ lit "netdev-" ++ lit "virtual"
unfolding lit
virtual_lem = refl

dashes-virtual : dashes (lit "netdev-virtual") ≡ 1
unfolding lit nat_eq
dashes-virtual = refl

pub net-ne-virtual : (s : Str) → NetName s → s ≢ lit "netdev-virtual"
net-ne-virtual s (inl (d, u)) e = omega (arith, ap dashes e, dashes-virtual)
net-ne-virtual s (inr (m, f, d, v)) e = v (netdev_inj m (lit "virtual") (sym f ∙ e ∙ virtual_lem))

pub rdma-ne-virtual : (s : Str) → RdmaName s → s ≢ lit "netdev-virtual"
rdma-ne-virtual s q e = cc (virtual_lem, netdev-not-uverbs (lit "virtual"))

pub virtual-ne-pool : (s : Str) → PoolName s → lit "netdev-virtual" ≢ s
virtual-ne-pool s (m, k, e, p) h =
    omega (arith, ap dashes h, ap dashes e, dashes-pool_name k m, dashes-virtual)

-- An interface called `virtual` is none that is published.
pub virtual-not-allocatable : is_allocatable_interface (lit "virtual") ≡ false
unfolding is_allocatable_interface lit has_prefix contains_str nat_eq
virtual-not-allocatable = refl
