-- ===== src/Netdev/RoundTrip.antt =====
-- The five handlers that create a link (pkg/handler/netdev), taken together: failed preparations,
-- and `Unprepare` after `Prepare`.
use dra_multi_things.Base.{
  false, ◌≢◌, ◌≡◌, refl, sym, ◌∙◌, Str, str_eq, true, List, [], ◌∷◌, ◌++◌, arith, String, lit, take,
  length, leb, inl, inr, sum-cases,
}
use dra_multi_things.Handler.{PrepareRequest, PrepareResult, UnprepareRequest, DeviceHandler, meta}
use dra_multi_things.Netdev.Create.{unprepare_created, delete_if_found}
use dra_multi_things.Netdev.Dummy.{dummy_handler}
use dra_multi_things.Netdev.Dummy
use dra_multi_things.Netdev.Ipoib.{ipoib_handler}
use dra_multi_things.Netdev.Ipoib
use dra_multi_things.Netdev.Ipvlan.{ipvlan_handler}
use dra_multi_things.Netdev.Ipvlan
use dra_multi_things.Netdev.Macvlan.{macvlan_handler}
use dra_multi_things.Netdev.Macvlan
use dra_multi_things.Netdev.Rollback.{
  Prepared, dummy_rule, macvlan_rule, ipvlan_rule, veth_rule, ipoib_rule,
}
use dra_multi_things.Netdev.Undo.{Made, Same, Made-shown_self, del-Same}
use dra_multi_things.Netdev.Veth.{veth_handler}
use dra_multi_things.Netdev.Veth
use dra_multi_things.System.Errors.{Error, ok, err}
use dra_multi_things.System.Netlink.{
  Netlink, Link, attrs, found, SameLinks, IsLawful, DeletesCleanly,
}
use dra_multi_things.System.Triple.{Triple, value_holds, error_holds}
use dra_multi_things.System.World.{World}

-- The handlers that create a link.
pub data Creator : Type 0 where
  dummy macvlan ipvlan veth ipoib : Creator

abbrev pub handler : {N : Netlink} → Creator → DeviceHandler (World N)
handler dummy = dummy_handler
handler macvlan = macvlan_handler
handler ipvlan = ipvlan_handler
handler veth = veth_handler
handler ipoib = ipoib_handler

abbrev pub kind_of : Creator → Str
kind_of dummy = lit "dummy"
kind_of macvlan = lit "macvlan"
kind_of ipvlan = lit "ipvlan"
kind_of veth = lit "veth"
kind_of ipoib = lit "ipoib"

-- The key of the metadata that names the link.
abbrev pub key_of : Creator → String
key_of veth = "hostEnd"
key_of dummy = "createdInterface"
key_of macvlan = "createdInterface"
key_of ipvlan = "createdInterface"
key_of ipoib = "createdInterface"

-- The names that a handler gives for a claim: a prefix and the first eight bytes of the claim UID.
abbrev pub names_of : Creator → Str → List Str
names_of dummy uid = (lit "dm" ++ take 8 uid) ∷ []
names_of macvlan uid = (lit "mv" ++ take 8 uid) ∷ []
names_of ipvlan uid = (lit "iv" ++ take 8 uid) ∷ []
names_of veth uid = (lit "vh" ++ take 8 uid) ∷ (lit "vc" ++ take 8 uid) ∷ []
names_of ipoib uid = (lit "ib" ++ take 8 uid) ∷ []

module _ (N : Netlink) {group : N.State → Str → List Str} (L : IsLawful N group)
    (D : DeletesCleanly N) where
  pub prepare_rule :
      (c : Creator) (s : N.State) (req : PrepareRequest)
      → Triple
          (Same N group s)
          ((handler c).prepare req)
          (λ r w. Prepared N group (kind_of c) (key_of c) (names_of c req.claim_uid) req s r w.net)
          (Same N group s)
          (leb 8 (length req.claim_uid) ≡ false)
  unfolding dummy_handler macvlan_handler ipvlan_handler veth_handler ipoib_handler
  prepare_rule dummy s req = dummy_rule N L D s req
  prepare_rule macvlan s req = macvlan_rule N L D s req
  prepare_rule ipvlan s req = ipvlan_rule N L D s req
  prepare_rule veth s req = veth_rule N L D s req
  prepare_rule ipoib s req = ipoib_rule N L D s req

  -- If `Prepare` of a handler that creates a link returns an error, the kernel shows the links
  -- that it showed before, provided that it refuses no deletion.
  pub prepare-rolls_back :
      (c : Creator) (req : PrepareRequest) (w : World N) {e : Error}
      → ((handler c).prepare req w).0 ≡ err e
      → SameLinks N w.net ((handler c).prepare req w).1.net
  prepare-rolls_back c req w h = error_holds (prepare_rule c w.net req) w (λ n. refl) h

  -- If it returns a result, the kernel shows exactly the former links and those of the two
  -- letters and eight bytes of the claim, none of which it showed before.
  pub prepare-Prepared :
      (c : Creator) (req : PrepareRequest) (w : World N) {r : PrepareResult}
      → ((handler c).prepare req w).0 ≡ ok r
      → Prepared N group
          (kind_of c)
          (key_of c)
          (names_of c req.claim_uid)
          req
          w.net
          r
          ((handler c).prepare req w).1.net
  prepare-Prepared c req w h = value_holds (prepare_rule c w.net req) w (λ n. refl) h

  delete_if_found-restores :
      (format : String) (name : Str) (s : N.State) (l : Link) (w : World N)
      → Made N group s l w.net
      → (attrs l).name ≡ name
      → ((delete_if_found format name w).0 ≡ ok tt)
        × SameLinks N s (delete_if_found format name w).1.net
  unfolding delete_if_found
  delete_if_found-restores format name s l w m e =
      let shown : found N w.net name ≡ true = rw e at (Made-shown_self N L s l w.net m) in
      elim (sum-cases (N.link_by_name w.net name)) [
        | inl (x, q) ↦ absurd (ground arith)
        | inr (k, q) ↦
            let named : (attrs k).name ≡ (attrs l).name = L.name-found w.net name k q ∙ sym e in
            let gone = D w.net k (ground (arith, L.name-found w.net name k q)) in
            rw (q, delete_if_found, gone) (refl, del-Same N L s l k w.net m gone named)
      ]

  -- Deleting the link that an allocation names.
  pub unprepare_created-restores :
      (key format : String) (s : N.State) (l : Link) (req : UnprepareRequest) (v : World N)
      → Made N group s l v.net
      → (attrs l).name ≢ []
      → meta (lit key) req.allocation.metadata ≡ (attrs l).name
      → let out = unprepare_created key format req v in (out.0 ≡ ok tt) × SameLinks N s out.1.net
  unfolding unprepare_created
  unprepare_created-restores key format s l req v made named recorded =
      ground (arith, delete_if_found-restores format (attrs l).name s l v made refl)

  created-restores :
      (key format : String) {kind : Str} {names : List Str} {req : PrepareRequest} (s : N.State)
      (r : PrepareResult) (v : World N)
      → Prepared N group kind key names req s r v.net
      → let out =
          unprepare_created key format
            (record { claim_uid = req.claim_uid; allocation = r.allocation })
            v in
        (out.0 ≡ ok tt) × SameLinks N s out.1.net
  created-restores key format {req} s r v p =
      unprepare_created-restores key format s p.link
        (record { claim_uid = req.claim_uid; allocation = r.allocation }) v p.made p.not_empty
        p.recorded

  pub restores :
      (c : Creator) {req : PrepareRequest} (s : N.State) (r : PrepareResult) (v : World N)
      → Prepared N group (kind_of c) (key_of c) (names_of c req.claim_uid) req s r v.net
      → let out =
          (handler c).unprepare
            (record { claim_uid = req.claim_uid; allocation = r.allocation })
            v in
        (out.0 ≡ ok tt) × SameLinks N s out.1.net
  unfolding dummy_handler macvlan_handler ipvlan_handler veth_handler ipoib_handler Dummy.unprepare
      Macvlan.unprepare Ipvlan.unprepare Veth.unprepare Ipoib.unprepare
  restores dummy s r v p = created-restores _ _ s r v p
  restores macvlan s r v p = created-restores _ _ s r v p
  restores ipvlan s r v p = created-restores _ _ s r v p
  restores veth s r v p = created-restores _ _ s r v p
  restores ipoib s r v p = created-restores _ _ s r v p

  -- `Unprepare` of what `Prepare` returned, in the kernel that it left, succeeds and takes the
  -- kernel back to the links that it showed before `Prepare`.
  pub unprepare-prepare :
      (c : Creator) (req : PrepareRequest) (w : World N) {r : PrepareResult}
      → ((handler c).prepare req w).0 ≡ ok r
      → let out =
          (handler c).unprepare
            (record { claim_uid = req.claim_uid; allocation = r.allocation })
            ((handler c).prepare req w).1 in
        (out.0 ≡ ok tt) × SameLinks N w.net out.1.net
  unprepare-prepare c req w {r} h =
      restores c w.net r ((handler c).prepare req w).1 (prepare-Prepared c req w h)
