-- ===== src/Netdev/Undo.antt =====
-- The names of the links while pkg/handler/netdev creates a link, brings it up, and deletes it on
-- an error.
use dra_multi_things.Base.{
  ◌≡◌, refl, sym, ◌∙◌, ap, Str, str_eq, contains, All, Bool, true, false, ◌||◌, List, [], ◌∷◌,
  Option, none, some, arith, String, inl, inr, ◌⊎◌,
}
use dra_multi_things.Netdev.Create.{add_and_up}
use dra_multi_things.System.Errors.{Error}
use dra_multi_things.System.Monad.{done, from_sum, link_by_name, link_add, link_del, link_set_up}
use dra_multi_things.System.Netlink.{
  Netlink, Link, attrs, ends, found, SameLinks, IsLawful, DeletesCleanly, dummy, macvlan, ipvlan,
  veth, ipoib, other,
}
use dra_multi_things.System.Triple.{Triple, Post, bind, wrap_rule, on_error_rule}
use dra_multi_things.System.World.{World}

contains-All :
    (P : Str → Bool) (xs : List Str) (n : Str)
    → All (λ x. P x ≡ false) xs
    → contains xs n ≡ true
    → P n ≡ false
contains-All P [] n h c = cc
contains-All P (x ∷ xs) n h c = ground (arith, h.0, contains-All P xs n h.1)

-- The own name is among the names that a link adds.
pub contains-ends : (l : Link) → contains (ends l) (attrs l).name ≡ true
contains-ends (dummy a) = ground arith
contains-ends (macvlan a m) = ground arith
contains-ends (ipvlan a m) = ground arith
contains-ends (veth a p) = ground arith
contains-ends (ipoib a k m) = ground arith
contains-ends (other a) = ground arith

module _ (N : Netlink) (group : N.State → Str → List Str) where
  -- From the links of `s` a kernel has come to `t` by creating `l`, and by nothing else that shows.
  pub record Made (s : N.State) (l : Link) (t : N.State) : Type 0 where
    pub shown : (n : Str) → found N t n ≡ (contains (ends l) n || found N s n)
    pub grouped : group t (attrs l).name ≡ ends l
    pub fresh : All (λ n. found N s n ≡ false) (ends l)

  abbrev pub Same : N.State → World N → Type 0
  Same s w = SameLinks N s w.net

  abbrev pub Created : N.State → Link → World N → Type 0
  Created s l w = Made s l w.net

module _ (N : Netlink) {group : N.State → Str → List Str} (L : IsLawful N group) (s : N.State) where
  fresh-same :
      (t : N.State) (xs : List Str)
      → SameLinks N s t
      → All (λ n. found N t n ≡ false) xs
      → All (λ n. found N s n ≡ false) xs
  fresh-same t [] h f = tt
  fresh-same t (x ∷ xs) h f = (sym (h x) ∙ f.0, fresh-same t xs h f.1)

  add-Made :
      (l : Link) (t : N.State)
      → SameLinks N s t
      → (N.link_add t l).0 ≡ none
      → Made N group s l (N.link_add t l).1
  add-Made l t h e = record {
    shown = λ n. rw (L.add_found t l n e, h n);
    grouped = L.add_group t l e;
    fresh = fresh-same t (ends l) h (L.add_fresh t l e);
  }

  up-Made : (l k : Link) (t : N.State) → Made N group s l t → Made N group s l (N.link_set_up t k).1
  up-Made l k t m = record {
    shown = λ n. L.up_same t k n ∙ m.shown n;
    grouped = L.up_group t k (attrs l).name ∙ m.grouped;
    fresh = m.fresh;
  }

  -- Deleting the link restores the names.
  pub del-Same :
      (l k : Link) (t : N.State)
      → Made N group s l t
      → (N.link_del t k).0 ≡ none
      → (attrs k).name ≡ (attrs l).name
      → SameLinks N s (N.link_del t k).1
  del-Same l k t m ok_del named n = ground (
    arith,
    L.del_found t k n ok_del,
    ap (λ (xs : List Str). contains xs n) (ap (group t) named ∙ m.grouped),
    m.shown n,
    contains-All (found N s) (ends l) n m.fresh,
  )

  -- The link itself is shown.
  pub Made-shown_self :
      (l : Link) (t : N.State) → Made N group s l t → found N t (attrs l).name ≡ true
  Made-shown_self l t m = ground (arith, m.shown (attrs l).name, contains-ends l)

  pub add_rule :
      {X : Type 0} (l : Link)
      → Triple (Same N group s) (link_add l) (λ _. Created N group s l) (Same N group s) X
  add_rule {X} l = record { holds = λ w h. at (N.link_add w.net l).0 w h refl }
    where
      at :
          (e : Option Error) (w : World N)
          → SameLinks N s w.net
          → (N.link_add w.net l).0 ≡ e
          → Post
              (λ _. Created N group s l)
              (Same N group s)
              X
              (done e)
              (record w { net = (N.link_add w.net l).1 })
      at none w h e = add-Made l w.net h e
      at (some x) w h e = λ n. L.add_fails w.net l (λ q. cc) n ∙ h n

  pub up_rule :
      {X : Type 0} (l k : Link)
      → Triple
          (Created N group s l)
          (link_set_up k)
          (λ _. Created N group s l)
          (Created N group s l)
          X
  up_rule {X} l k = record { holds = λ w m. at (N.link_set_up w.net k).0 w m }
    where
      at :
          (e : Option Error) (w : World N)
          → Created N group s l w
          → Post
              (λ _. Created N group s l)
              (Created N group s l)
              X
              (done e)
              (record w { net = (N.link_set_up w.net k).1 })
      at none w m = up-Made l k w.net m
      at (some x) w m = up-Made l k w.net m

  pub find_rule :
      {P : World N → Type 0} {X : Type 0} (n : Str)
      → Triple P (link_by_name n) (λ k w. P w × ((attrs k).name ≡ n)) P X
  find_rule {P} {X} n = record { holds = λ w p. at (N.link_by_name w.net n) w p refl }
    where
      at :
          (r : Error ⊎ Link) (w : World N)
          → P w
          → N.link_by_name w.net n ≡ r
          → Post (λ k v. P v × ((attrs k).name ≡ n)) P X (from_sum r w).0 (from_sum r w).1
      at (inl e) w p q = p
      at (inr k) w p q = (p, L.name-found w.net n k q)

  module _ (D : DeletesCleanly N) where
    pub undo :
        (l k : Link)
        → (attrs k).name ≡ (attrs l).name
        → (w : World N) → Created N group s l w
        → Same N group s (link_del k w).1
    undo l k named w m =
        del-Same l k w.net m (D w.net k (ap (found N w.net) named ∙ Made-shown_self l w.net m))
          named

    pub add_and_up_rule :
        {X : Type 0} (add_format up_format : String) (l : Link) (add_args up_args : List Str)
        → Triple
            (Same N group s)
            (add_and_up add_format up_format l add_args up_args)
            (λ _. Created N group s l)
            (Same N group s)
            X
    unfolding add_and_up
    add_and_up_rule f g l xs ys =
        bind (wrap_rule f xs (add_rule l))
          (λ _. on_error_rule (link_del l) (wrap_rule g ys (up_rule l l)) (undo l l refl))
