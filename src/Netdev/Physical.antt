-- ===== src/Netdev/Physical.antt =====
-- The handlers for interfaces that exist already, host-device and sriov-vf (pkg/handler/netdev).
use dra_multi_things.Base.{
  refl, Str, str_eq, ◌==◌, if◌then◌else◌, not, lit, [], ◌∷◌, Option, none, some, ◌⊎◌, inl, inr,
  String, arith,
}
use dra_multi_things.Base.Dict.{lookup}
use dra_multi_things.Base.Int.{is_positive}
use dra_multi_things.Handler.{Recorded, Restorable, NetdevConfig, PrepareRequest}
use dra_multi_things.Netdev.HostDevice
use dra_multi_things.Netdev.Sriov.{choose_vf, find_available_vf}
use dra_multi_things.Netdev.Sriov
use dra_multi_things.System.Errors.{Error}
use dra_multi_things.System.Monad.{pure, from_sum, done, call, wrap, link_by_name, link_set_mtu}
use dra_multi_things.System.Netlink.{Netlink, Link}
use dra_multi_things.System.Triple.{
  Triple, Post, bind, wrap_rule, require_rule, guard_rule, assuming, pure_rule, if_rule,
}
use dra_multi_things.System.World.{World}

module _ {N : Netlink} where
  done-Post : (e : Option Error) (w : World N) → Post (λ _ _. Unit) (λ _. Unit) ⊥ (done e) w
  done-Post none w = tt
  done-Post (some e) w = tt

  sum-Post :
      {A : Type 0} (r : Error ⊎ A) (w : World N)
      → Post (λ _ _. Unit) (λ _. Unit) ⊥ (from_sum r w).0 (from_sum r w).1
  sum-Post (inl e) w = tt
  sum-Post (inr a) w = tt

  call_rule :
      (f : N.State → Option Error × N.State)
      → Triple (λ _. Unit) (call {N = N} f) (λ _ _. Unit) (λ _. Unit) ⊥
  call_rule f = record { holds = λ w p. done-Post (f w.net).0 (record w { net = (f w.net).1 }) }

  find_rule : (n : Str) → Triple (λ _. Unit) (link_by_name {N = N} n) (λ _ _. Unit) (λ _. Unit) ⊥
  find_rule n = record { holds = λ w p. sum-Post (N.link_by_name w.net n) w }

  mtu_rule :
      (format : String) (name : Str) (cfg : NetdevConfig) (link : Link)
      → Triple
          (λ _. Unit)
          (if is_positive cfg.mtu
            then wrap format (name ∷ []) (link_set_mtu {N = N} link cfg.mtu)
            else pure tt)
          (λ _ _. Unit)
          (λ _. Unit)
          ⊥
  mtu_rule format name cfg link =
      if_rule (is_positive cfg.mtu)
        (wrap_rule format (name ∷ []) (call_rule (λ s. N.link_set_mtu s link cfg.mtu)))
        (pure_rule tt λ w p. tt)

  pub host_device_rule :
      (req : PrepareRequest)
      → Triple
          (λ _. Unit)
          (HostDevice.prepare {N = N} req)
          (λ r _. Recorded r × Restorable req.claim_uid r)
          (λ _. Unit)
          ⊥
  unfolding HostDevice.prepare lit lookup
  host_device_rule req = bind (require_rule req.config.netdev _) λ cfg. assuming λ _.
      bind (guard_rule (not (cfg.host_device == [])) _) λ _.
        bind (wrap_rule _ _ (find_rule cfg.host_device)) λ link.
          bind (mtu_rule "failed to set MTU on %s: %w" cfg.host_device cfg link)
            λ _. pure_rule _ λ w _. ((refl, (refl, ground arith)), (refl, ground arith))

  choose_vf_rule :
      (cfg : NetdevConfig) (allocated : Str)
      → Triple (λ _. Unit) (choose_vf {N = N} cfg allocated) (λ _ _. Unit) (λ _. Unit) ⊥
  unfolding choose_vf
  choose_vf_rule cfg allocated = if_rule (not (allocated == [])) (pure_rule allocated λ w p. tt) (
      bind (guard_rule (not (cfg.parent == [])) _) λ _.
        wrap_rule _ _
          (record { holds = λ w p. sum-Post (find_available_vf w.os cfg.parent cfg.vf_index) w }))

  pub sriov_rule :
      (req : PrepareRequest)
      → Triple
          (λ _. Unit)
          (Sriov.prepare {N = N} req)
          (λ r _. Recorded r × Restorable req.claim_uid r)
          (λ _. Unit)
          ⊥
  unfolding Sriov.prepare lit lookup
  sriov_rule req = bind (require_rule req.config.netdev _) λ cfg. assuming λ _.
      bind (choose_vf_rule cfg req.allocated_device) λ vf.
        bind (wrap_rule _ _ (find_rule vf)) λ link.
          bind (mtu_rule "failed to set MTU on VF %s: %w" vf cfg link) λ _.
            bind (wrap_rule _ _ (call_rule (λ s. N.link_set_up s link)))
              λ _. pure_rule _ λ w _. ((refl, (refl, ground arith)), (refl, ground arith))
