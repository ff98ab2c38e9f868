-- ===== src/Idler/Cli/Processes.antt =====
-- What the cli idler makes of the number of processes that the command prints.
use aergia_controller.Base.{
  ℕ, zero, suc, ◌%◌, ◌<◌, String, ◌<>◌, ◌≡◌, refl, not, arith, eqb, pos, if◌then◌else◌, Bool-cases,
  inl, inr,
}
use aergia_controller.Strings.Decimal.{digit, itoa}
use aergia_controller.Strings.Trim.Decimal.{last_slice-trim_space-itoa}
use aergia_controller.Kube.{Deployment, Cluster}
use aergia_controller.World.{World, returned, pure, continue, ◌>>=◌}
use aergia_controller.Idler.Config.{Idler}
use aergia_controller.Idler.Cli.{is_busy, last_byte, scale_cli, check_processes}

is_busy-digit : (d : ℕ) → d < 10 → is_busy (String.◌∷◌ (digit d) "") ≡ not (eqb d 0)
unfolding is_busy
is_busy-digit zero h = refl
is_busy-digit (suc zero) h = refl
is_busy-digit (suc (suc zero)) h = refl
is_busy-digit (suc (suc (suc zero))) h = refl
is_busy-digit (suc (suc (suc (suc zero)))) h = refl
is_busy-digit (suc (suc (suc (suc (suc zero))))) h = refl
is_busy-digit (suc (suc (suc (suc (suc (suc zero)))))) h = refl
is_busy-digit (suc (suc (suc (suc (suc (suc (suc zero))))))) h = refl
is_busy-digit (suc (suc (suc (suc (suc (suc (suc (suc zero)))))))) h = refl
is_busy-digit (suc (suc (suc (suc (suc (suc (suc (suc (suc zero))))))))) h = refl
is_busy-digit (suc (suc (suc (suc (suc (suc (suc (suc (suc (suc n)))))))))) h = absurd (omega arith)

-- Where the command in a pod prints a number of processes and a line feed, the cli idler scales the
-- deployment exactly if the last digit of the number is zero, and otherwise leaves everything as it
-- is: ten processes count as none.
pub check_processes-itoa :
    (K : Cluster) (h : Idler) (d : Deployment) (n : ℕ) (stderr : String) (w : World K)
    → check_processes K h d (itoa (pos n) <> "\n", stderr) w
      ≡ (if eqb (n % 10) 0 then scale_cli K h d w else (returned tt, w))
unfolding check_processes ◌>>=◌ last_byte continue pure
check_processes-itoa K h d n stderr w = rw (last_slice-trim_space-itoa n) (
    rw (is_busy-digit (n % 10) (omega arith))
      (elim (Bool-cases (eqb (n % 10) 0)) [ inl e ↦ rw e | inr e ↦ rw e ]))
