-- ===== src/Nri/Tracker/Active.antt =====
-- What `RemoveActiveForPod` takes and what it leaves (pkg/nri/tracker.go).
use dra_multi_things.Base.{
  ◌≡◌, ◌≢◌, refl, Str, str_eq, ◌==◌, if◌then◌else◌, [], ◌∷◌, Option, none, some, arith,
}
use dra_multi_things.Base.Dict.{Dict, lookup, NodupKeys}
use dra_multi_things.Nri.Tracker.{
  ActiveMove, RdmaNetnsTracker, for_pod, get_active_for_pod, remove_for_pod, remove_active_for_pod,
}

-- A move that belongs to a pod is dropped.
abbrev pub without : Str → Option ActiveMove → Option ActiveMove
without pod none = none
without pod (some m) = if m.pod_uid == pod then none else some m

remove_for_pod-for_pod :
    (pod : Str) (active : Dict Str ActiveMove) → (remove_for_pod pod active).0 ≡ for_pod pod active
unfolding remove_for_pod for_pod
remove_for_pod-for_pod pod [] = refl
remove_for_pod-for_pod pod ((k, m) ∷ active) = ground (arith, remove_for_pod-for_pod pod active)

for_pod-remove_self :
    (pod : Str) (active : Dict Str ActiveMove) → for_pod pod (remove_for_pod pod active).1 ≡ []
unfolding remove_for_pod for_pod
for_pod-remove_self pod [] = refl
for_pod-remove_self pod ((k, m) ∷ active) = ground (arith, for_pod-remove_self pod active)

for_pod-remove_other :
    (pod other : Str) (active : Dict Str ActiveMove)
    → other ≢ pod
    → for_pod other (remove_for_pod pod active).1 ≡ for_pod other active
unfolding remove_for_pod for_pod
for_pod-remove_other pod other [] h = refl
for_pod-remove_other pod other ((k, m) ∷ active) h =
    ground (arith, for_pod-remove_other pod other active h)

pub lookup-remove_for_pod :
    (pod k : Str) (active : Dict Str ActiveMove)
    → NodupKeys active
    → lookup k (remove_for_pod pod active).1 ≡ without pod (lookup k active)
unfolding remove_for_pod lookup
lookup-remove_for_pod pod k [] u = refl
lookup-remove_for_pod pod k ((j, m) ∷ active) u =
    ground (arith, lookup-remove_for_pod pod k active u.1)

-- Removing the active moves of a pod returns those that `GetActiveForPod` showed, in the same
-- order; afterwards the pod has none, any other pod has its own in the same order, and the
-- pending moves are as before.
pub remove_active_for_pod_lem :
    (pod other : Str) (t : RdmaNetnsTracker)
    → other ≢ pod
    → let out = remove_active_for_pod pod t in
      (out.0 ≡ get_active_for_pod pod t)
      × ((get_active_for_pod pod out.1 ≡ [])
          × ((get_active_for_pod other out.1 ≡ get_active_for_pod other t)
              × (out.1.pending ≡ t.pending)))
unfolding remove_active_for_pod get_active_for_pod
remove_active_for_pod_lem pod other t h = (
  remove_for_pod-for_pod pod t.active,
  (for_pod-remove_self pod t.active, (for_pod-remove_other pod other t.active h, refl)),
)
