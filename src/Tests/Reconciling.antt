-- ===== src/Tests/Reconciling.antt =====
-- Runs of the reconciler.
use aergia_controller.Base.{◌≡◌, ◌↔◌, refl, some, ◌==◌, lookup}
use aergia_controller.World.{returned}
use aergia_controller.Controllers.{reconcile}
use aergia_controller.Controllers.Errors.{IsUnreadable, reconcile_error}
use aergia_controller.Controllers.Labels.{IsDone, reconcile-IsDone}
use aergia_controller.Tests.Memory.{find, memory}
use aergia_controller.Tests.Memory.Laws.{memory-IsLawful, memory_accepts_namespace}
use aergia_controller.Tests.Samples.{stdlib, main_namespace, world, idler}

reconcile_error_example :
    ((reconcile memory stdlib idler "gone" world).0 ≡ returned (some "not found"))
    ↔ IsUnreadable memory stdlib idler world "gone" "not found"
reconcile_error_example = reconcile_error memory stdlib idler "gone" world "not found"

reconcile-IsDone_example :
    IsDone memory memory-IsLawful memory_accepts_namespace "idling.amazee.io/force-scaled" "main"
      (reconcile memory stdlib idler "main" world)
unfolding find lookup ◌==◌
reconcile-IsDone_example =
    reconcile-IsDone memory memory-IsLawful memory_accepts_namespace stdlib idler "main"
      main_namespace "idling.amazee.io/force-scaled" world refl refl
