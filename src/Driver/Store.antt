-- ===== src/Driver/Store.antt =====
-- pkg/driver/driver.go: the state of the driver, and what it keeps under /etc/cdi: a CDI spec and
-- a sidecar file with the allocation for each prepared claim.
pub mod Restore
pub mod Paths
pub mod Frame
pub mod Sidecar
pub mod Mirror
pub mod Transparent
use dra_multi_things.Base.{
  Str, str_eq, ◌==◌, if◌then◌else◌, lit, Bool, not, ◌&&◌, true, false, [], ◌∷◌, ◌++◌, Option, none,
  some, ◌⊎◌, inl, inr,
}
use dra_multi_things.Base.Dict.{Dict, insert}
use dra_multi_things.Base.FilePath.{filepath_join}
use dra_multi_things.Base.Strings.{has_prefix, replace_byte}
use dra_multi_things.Driver.Codec.{encode_allocation, decode_allocation}
use dra_multi_things.Handler.{PrepareResult, AllocationInfo, ContainerEdits}
use dra_multi_things.Handler.Registry.{HandlerRegistry}
use dra_multi_things.System.Errors.{Error, Outcome, ok, err, panic}
use dra_multi_things.System.Monad.{M, done, ◌>>=◌, ◌>>◌, wrap, slice_to}
use dra_multi_things.System.Netlink.{Netlink}
use dra_multi_things.System.Os.{
  Os, Content, Json, stats, reads, json, read_file, write_file, remove, mkdir_all,
}
use dra_multi_things.System.World.{World}

unfoldable pub cdi_dir : Str
unfolding lit
cdi_dir = lit "/etc/cdi"

-- `cdispec.Spec` with one device, as the driver fills it.
pub record CdiSpec : Type 0 where
  pub version : Str
  pub kind : Str
  pub device_name : Str
  pub container_edits : ContainerEdits

-- The fields of `Driver` that do not change, and the JSON form of a CDI spec, which the CDI
-- package defines.
pub record Driver (N : Netlink) : Type 0 where
  pub driver_name : Str
  pub registry : HandlerRegistry (World N)
  pub spec_json : CdiSpec → Json

-- What changes: `Driver.allocations`, and the world that the handlers act on.
pub record DriverState (N : Netlink) : Type 0 where
  pub allocations : Dict Str AllocationInfo
  pub world : World N

-- `New`: the fields that do not change, and no allocations.
abbrev pub new_driver :
    {N : Netlink} → Str → HandlerRegistry (World N) → (CdiSpec → Json) → Driver N
new_driver driver_name registry spec_json = record {
  driver_name = driver_name;
  registry = registry;
  spec_json = spec_json;
}

unfoldable pub new : {N : Netlink} → World N → DriverState N
new w = record { allocations = []; world = w }

-- `strings.ReplaceAll(d.driverName, "/", "-")`
unfoldable pub file_name_of : Str → Str
file_name_of driver_name = replace_byte b'/' b'-' driver_name

-- `cdiFilePrefix`, once `claimUID[:8]` is taken.
unfoldable pub file_prefix : Str → Str → Str
unfolding file_name_of
file_prefix driver_name uid8 = file_name_of driver_name ++ (b'-' ∷ uid8)

unfoldable pub spec_path : Str → Str → Str
unfolding file_prefix lit
spec_path driver_name uid8 =
    filepath_join (cdi_dir ∷ (file_prefix driver_name uid8 ++ lit ".json") ∷ [])

unfoldable pub state_path : Str → Str → Str
unfolding file_prefix lit
state_path driver_name uid8 =
    filepath_join (cdi_dir ∷ (file_prefix driver_name uid8 ++ lit ".alloc.json") ∷ [])

-- `fmt.Sprintf("%s/%s=%s", driverName, type, device)`
unfoldable pub cdi_device_id : Str → Str → Str → Str
cdi_device_id driver_name typ device = driver_name ++ (b'/' ∷ (typ ++ (b'=' ∷ device)))

-- `*.alloc.json` matches: the text ends in the suffix, and has no slash before it.
unfoldable pub middle_matches : Str → Bool
unfolding lit
middle_matches [] = has_prefix [] (lit ".alloc.json")
middle_matches (b ∷ s) =
    let rest = middle_matches s in
    if (b ∷ s) == lit ".alloc.json" then true else if (b ∷ []) == (b'/' ∷ []) then false else rest

-- What follows a prefix.
abbrev strip : Str → Str → Option Str
strip s [] = some s
strip [] (c ∷ p) = none
strip (b ∷ s) (c ∷ p) = if (b ∷ []) == (c ∷ []) then strip s p else none

-- The files that the pattern of `restoreAllocations` matches.
unfoldable pub is_state_file : Str → Str → Bool
unfolding middle_matches lit
is_state_file driver_name path =
    elim (strip path (cdi_dir ++ (b'/' ∷ (file_name_of driver_name ++ lit "-")))) [
      | none ↦ false
      | some middle ↦ middle_matches middle
    ]

-- `filepath.Glob` can stat the directory and read its entries.
unfoldable pub can_list : Os → Bool
can_list os = not (os.refuses stats cdi_dir) && not (os.refuses reads cdi_dir)

-- The files that it goes through: none if it cannot list the directory, which is no error.
unfoldable pub glob_files : Os → Dict Str Content
unfolding can_list
glob_files os = if can_list os then os.files else []

-- One round of the loop of `restoreAllocations`, on a file that matches.
unfoldable pub restore_file : Error ⊎ Content → Dict Str AllocationInfo → Dict Str AllocationInfo
restore_file (inl e) allocations = allocations
restore_file (inr c) allocations = elim (decode_allocation c) [
  | none ↦ allocations
  | some a ↦ if a.claim_uid == [] then allocations else insert a.claim_uid a allocations
]

-- The loop, over files of the system.
unfoldable pub restore_files :
    Str → Os → Dict Str Content → Dict Str AllocationInfo → Dict Str AllocationInfo
unfolding restore_file
restore_files driver_name os [] allocations = allocations
restore_files driver_name os ((path, c) ∷ files) allocations = restore_files driver_name os files (
    if is_state_file driver_name path
    then restore_file (read_file os path) allocations
    else allocations)

-- An error of `saveAllocation` is only logged.
abbrev pub logged : {A : Type 0} → A → Outcome (Unit {0}) → Outcome A
logged a (ok _) = ok a
logged a (err _) = ok a
logged a panic = panic

module _ {N : Netlink} where
  -- `restoreAllocations`
  unfoldable pub restore_allocations : Str → DriverState N → DriverState N
  unfolding restore_files glob_files
  restore_allocations driver_name d = record d {
    allocations = restore_files driver_name d.world.os (glob_files d.world.os) d.allocations;
  }

  -- A step on the files.
  abbrev pub file_step : (Os → Option Error × Os) → M (World N) (Unit {0})
  file_step f w = let (e, os) = f w.os in (done e, record w { os = os })

  -- `saveAllocation`
  unfoldable pub save_allocation : Str → Str → AllocationInfo → M (World N) (Unit {0})
  save_allocation driver_name claim_uid alloc = do
    uid ← slice_to 8 claim_uid
    wrap "write allocation state: %w" []
        (file_step (λ os. write_file os (state_path driver_name uid) (encode_allocation alloc)))

  -- The file of the CDI spec.
  unfoldable pub write_spec : Driver N → Str → PrepareResult → M (World N) (Unit {0})
  unfolding lit
  write_spec dr uid8 result = wrap "failed to write CDI spec: %w" [] (
      file_step (λ os. write_file os (spec_path dr.driver_name uid8) (
        json (
          dr.spec_json (record {
            version = lit "1.1.0";
            kind = dr.driver_name ++ (b'/' ∷ result.allocation.typ);
            device_name = result.device_name;
            container_edits = result.cdi_edits;
          })))))

  -- `createCDISpec`
  unfoldable pub create_cdi_spec : Driver N → Str → PrepareResult → M (World N) Str
  unfolding save_allocation lit
  create_cdi_spec dr claim_uid result = do
    wrap "failed to create CDI directory: %w" [] (file_step (λ os. (mkdir_all os cdi_dir, os)))
    uid ← slice_to 8 claim_uid
    write_spec dr uid result
    λ w.
        let (r, w') = save_allocation dr.driver_name claim_uid result.allocation w in
        (logged (cdi_device_id dr.driver_name result.allocation.typ result.device_name) r, w')

  -- `deleteCDISpec` and `removeAllocationState`; what goes wrong is only logged.
  unfoldable pub delete_cdi_spec : Str → Str → M (World N) (Unit {0})
  delete_cdi_spec driver_name claim_uid = do
    uid ← slice_to 8 claim_uid
    λ w. (
      ok tt,
      record w {
        os = remove (remove w.os (spec_path driver_name uid)) (state_path driver_name uid);
      },
    )
