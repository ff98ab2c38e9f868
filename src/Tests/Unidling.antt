-- ===== src/Tests/Unidling.antt =====
-- Runs of the unidling and of what it takes back.
use aergia_controller.Base.{String, ◌≡◌, refl, not, ◌&&◌, ◌||◌, ◌==◌, contains, lookup}
use aergia_controller.Strings.Split.{split, LacksComma}
use aergia_controller.Kube.Lawful.{merge_ingress}
use aergia_controller.World.Changed.{Changed}
use aergia_controller.Idler.Helpers.{add_status_code}
use aergia_controller.Idler.Patches.{
  custom_http_errors, router_middlewares, middleware, idle_ingress_patch,
}
use aergia_controller.Unidler.Helpers.{remove_status_code}
use aergia_controller.Unidler.Helpers.Codes.{
  contains-add_status_code, IsWithout, remove_status_code-IsWithout,
}
use aergia_controller.Unidler.Checks.{unidle_ingress_patch}
use aergia_controller.Unidler.Checks.RoundTrip.{
  restored, merge_ingress-unidle_ingress_patch-idle_ingress_patch,
}
use aergia_controller.Unidler.Unidle.{unidle}
use aergia_controller.Unidler.Unidle.OnlyUnidles.{IsUnidled, unidle-Changed}
use aergia_controller.Unidler.Unidle.Locks.{unidle-locks}
use aergia_controller.Tests.Memory.{memory}
use aergia_controller.Tests.Memory.Laws.{memory-IsLawful}
use aergia_controller.Tests.Samples.{main_namespace, main_ingress, idled_world}

contains-add_status_code_example :
    contains (split (add_status_code "404" "503")) "503"
    ≡ ((not ("404" == "") && contains (split "404") "503") || "503" == "503")
contains-add_status_code_example =
    contains-add_status_code "404" "503" "503" (refl, (refl, (refl, tt)))

remove_status_code-IsWithout_example :
    IsWithout (split "404,503,503") "503" (remove_status_code "404,503,503" "503")
remove_status_code-IsWithout_example = remove_status_code-IsWithout "404,503,503" "503"

pub middleware-LacksComma : LacksComma (middleware "main")
unfolding middleware
middleware-LacksComma = (
  refl,
  (
    refl,
    (
      refl,
      (
        refl,
        (
          refl,
          (
            refl,
            (
              refl,
              (
                refl,
                (
                  refl,
                  (
                    refl,
                    (
                      refl,
                      (
                        refl,
                        (
                          refl,
                          (
                            refl,
                            (
                              refl,
                              (
                                refl,
                                (
                                  refl,
                                  (
                                    refl,
                                    (refl, (refl, (refl, (refl, (refl, (refl, (refl, tt))))))),
                                  ),
                                ),
                              ),
                            ),
                          ),
                        ),
                      ),
                    ),
                  ),
                ),
              ),
            ),
          ),
        ),
      ),
    ),
  ),
)

merge_ingress-unidle_ingress_patch-idle_ingress_patch_example :
    let i1 = merge_ingress (idle_ingress_patch main_ingress) main_ingress in
    let i2 = merge_ingress (unidle_ingress_patch i1) i1 in
    (lookup custom_http_errors i2.annotations ≡ restored custom_http_errors main_ingress)
    × (lookup router_middlewares i2.annotations ≡ restored router_middlewares main_ingress)
unfolding split ◌==◌ lookup middleware
merge_ingress-unidle_ingress_patch-idle_ingress_patch_example =
    merge_ingress-unidle_ingress_patch-idle_ingress_patch main_ingress refl refl
      middleware-LacksComma

unidle-Changed_example :
    Changed memory IsUnidled idled_world (unidle memory main_namespace idled_world).1
unidle-Changed_example =
    unidle-Changed memory memory-IsLawful (λ c s ns name. refl) main_namespace idled_world

unidle-locks_example :
    let w' = (unidle memory main_namespace idled_world).1 in
    ((k : String) → contains w'.locks k ≡ (contains idled_world.locks k && not (k == "main")))
    × (w'.goroutines ≡ idled_world.goroutines)
unidle-locks_example = unidle-locks memory main_namespace idled_world
