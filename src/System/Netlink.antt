-- ===== src/System/Netlink.antt =====
-- The packages netlink and netns as an interface over an unknown kernel state, and what is
-- documented of them. A failing call returns `some` error.
use dra_multi_things.Base.{
  ◌≢◌, ℕ, ◌≡◌, Str, str_eq, Bool, true, false, not, ◌&&◌, ◌||◌, List, [], ◌∷◌, Option, none, ◌⊎◌,
  inl, inr, All, contains,
}
use dra_multi_things.Base.Int.{ℤ}
use dra_multi_things.System.Errors.{Error}

-- `netlink.LinkAttrs`, the fields that the program sets or reads.
pub record LinkAttrs : Type 0 where
  pub name : Str
  pub index : ℕ
  pub mtu : ℤ
  pub parent_index : ℕ

pub data MacvlanMode : Type 0 where
  bridge vepa private : MacvlanMode

pub data IpvlanMode : Type 0 where
  l2 l3 : IpvlanMode

pub data IpoibMode : Type 0 where
  datagram connected : IpoibMode

-- `netlink.Link`: the kinds that the handlers create, and any other that the kernel shows.
pub data Link : Type 0 where
  dummy : LinkAttrs → Link
  macvlan : LinkAttrs → MacvlanMode → Link
  ipvlan : LinkAttrs → IpvlanMode → Link
  veth : LinkAttrs → Str → Link
  ipoib : LinkAttrs → ℕ → IpoibMode → Link
  other : LinkAttrs → Link

-- `Link.Attrs()`
abbrev pub attrs : Link → LinkAttrs
attrs (dummy a) = a
attrs (macvlan a _) = a
attrs (ipvlan a _) = a
attrs (veth a _) = a
attrs (ipoib a _ _) = a
attrs (other a) = a

-- The names that creating a link adds: its own, and its peer's for a veth pair.
abbrev pub ends : Link → List Str
ends (veth a peer) = a.name ∷ peer ∷ []
ends (dummy a) = a.name ∷ []
ends (macvlan a _) = a.name ∷ []
ends (ipvlan a _) = a.name ∷ []
ends (ipoib a _ _) = a.name ∷ []
ends (other a) = a.name ∷ []

pub record Netlink : Type 1 where
  pub State : Type 0
  pub NsHandle : Type 0
  pub RdmaLink : Type 0
  pub link_by_name : State → Str → Error ⊎ Link
  pub link_add : State → Link → Option Error × State
  pub link_del : State → Link → Option Error × State
  pub link_set_up : State → Link → Option Error × State
  pub link_set_down : State → Link → Option Error × State
  pub link_set_mtu : State → Link → ℤ → Option Error × State
  -- `netns.GetFromPath`, `netns.Set`
  pub ns_from_path : State → Str → Error ⊎ NsHandle
  pub ns_set : State → NsHandle → Option Error × State
  pub rdma_link_by_name : State → Str → Error ⊎ RdmaLink
  pub rdma_link_set_ns_fd : State → RdmaLink → NsHandle → Option Error × State
  -- `RdmaSystemGetNetnsMode`
  pub rdma_system_mode : State → Error ⊎ Str

module _ (N : Netlink) where
  open N use {State, link_by_name, link_add, link_del, link_set_up, link_set_down, link_set_mtu}

  -- The kernel shows a link of this name.
  abbrev pub found : State → Str → Bool
  found s n = elim (link_by_name s n) [ inl _ ↦ false | inr _ ↦ true ]

  -- Two states show links of the same names.
  abbrev pub SameLinks : State → State → Type 0
  SameLinks s t = (n : Str) → found t n ≡ found s n

  -- rtnetlink's contract on names. `group s n` are the names that go when `n` is deleted: `n`, and
  -- the other end of a veth pair.
  pub record IsLawful (group : State → Str → List Str) : Type 0 where
    pub name-found :
        (s : State) (n : Str) (l : Link) → link_by_name s n ≡ inr l → (attrs l).name ≡ n
    pub add_fails : (s : State) (l : Link) → (link_add s l).0 ≢ none → SameLinks s (link_add s l).1
    pub add_fresh :
        (s : State) (l : Link) → (link_add s l).0 ≡ none → All (λ n. found s n ≡ false) (ends l)
    pub add_found :
        (s : State) (l : Link) (n : Str)
        → (link_add s l).0 ≡ none
        → found (link_add s l).1 n ≡ (contains (ends l) n || found s n)
    pub add_group :
        (s : State) (l : Link)
        → (link_add s l).0 ≡ none
        → group (link_add s l).1 (attrs l).name ≡ ends l
    pub del_fails : (s : State) (l : Link) → (link_del s l).0 ≢ none → SameLinks s (link_del s l).1
    pub del_found :
        (s : State) (l : Link) (n : Str)
        → (link_del s l).0 ≡ none
        → found (link_del s l).1 n ≡ (not (contains (group s (attrs l).name) n) && found s n)
    pub up_same : (s : State) (l : Link) → SameLinks s (link_set_up s l).1
    pub up_group : (s : State) (l : Link) (n : Str) → group (link_set_up s l).1 n ≡ group s n
    pub down_same : (s : State) (l : Link) → SameLinks s (link_set_down s l).1
    pub mtu_same : (s : State) (l : Link) (m : ℤ) → SameLinks s (link_set_mtu s l m).1

  -- No deletion of a link that the kernel shows is refused.
  abbrev pub DeletesCleanly : Type 0
  DeletesCleanly = (s : State) (l : Link) → found s (attrs l).name ≡ true → (link_del s l).0 ≡ none
