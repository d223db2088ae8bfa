-- ===== src/Driver/Store/Frame.antt =====
-- The files that `createCDISpec` does not write (pkg/driver/driver.go).
use dra_multi_things.Base.{◌≡◌, ◌≢◌, Str, String, [], str_eq, take, arith}
use dra_multi_things.Base.Dict.{lookup-insert}
use dra_multi_things.Driver.Codec.{encode_allocation}
use dra_multi_things.Driver.Store.{
  Driver, file_step, spec_path, state_path, create_cdi_spec, write_spec, save_allocation,
}
use dra_multi_things.Handler.{PrepareResult, AllocationInfo}
use dra_multi_things.System.Monad.{wrap}
use dra_multi_things.System.Netlink.{Netlink}
use dra_multi_things.System.Os.{Os, Content, read_file, write_file}
use dra_multi_things.System.World.{World}

-- The file reads as before.
abbrev pub SameFile : Str → Os → Os → Type 0
SameFile q s t = read_file t q ≡ read_file s q

write_file-other : (s : Os) (p q : Str) (c : Content) → q ≢ p → SameFile q s (write_file s p c).1
unfolding write_file read_file
write_file-other s p q c n = ground (arith, lookup-insert q p c s.files)

module _ {N : Netlink} (dr : Driver N) where
  file_step-other :
      (format : String) (p q : Str) (c : Content) (w : World N)
      → q ≢ p
      → SameFile q w.os (wrap {S = World N} format [] (file_step (λ os. write_file os p c)) w).1.os
  file_step-other format p q c w n = ground (arith, write_file-other w.os p q c n)

  write_spec-other :
      (q uid8 : Str) (r : PrepareResult) (w : World N)
      → q ≢ spec_path dr.driver_name uid8
      → SameFile q w.os (write_spec dr uid8 r w).1.os
  unfolding write_spec
  write_spec-other q uid8 r w n =
      file_step-other "failed to write CDI spec: %w" (spec_path dr.driver_name uid8) q _ w n

  save_allocation-other :
      (q uid : Str) (a : AllocationInfo) (w : World N)
      → q ≢ state_path dr.driver_name (take 8 uid)
      → SameFile q w.os (save_allocation dr.driver_name uid a w).1.os
  unfolding save_allocation
  save_allocation-other q uid a w n = ground (
    arith,
    write_file-other w.os (state_path dr.driver_name (take 8 uid)) q (encode_allocation a) n,
  )

  pub create_cdi_spec-other :
      (q uid : Str) (r : PrepareResult) (w : World N)
      → q ≢ spec_path dr.driver_name (take 8 uid)
      → q ≢ state_path dr.driver_name (take 8 uid)
      → SameFile q w.os (create_cdi_spec dr uid r w).1.os
  unfolding create_cdi_spec
  create_cdi_spec-other q uid r w n m = ground (
    arith,
    write_spec-other q (take 8 uid) r w n,
    save_allocation-other q uid r.allocation (write_spec dr (take 8 uid) r w).1 m,
  )

  pub create_cdi_spec-refuses :
      (uid : Str) (r : PrepareResult) (w : World N)
      → (create_cdi_spec dr uid r w).1.os.refuses ≡ w.os.refuses
  unfolding create_cdi_spec write_spec save_allocation write_file
  create_cdi_spec-refuses uid r w = ground arith
