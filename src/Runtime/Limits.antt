-- ===== src/Runtime/Limits.antt =====
-- The limits that `create_container` passes to Docker.
use scriptorium.Base.{◌<◌, ◌≡◌, ◌^◌, true, arith, ◌⊎◌, min, false, length}
use scriptorium.World.Calls.{ContainerSpec}
use scriptorium.Base.Int.{ℤ, fits_signed, pos}
use scriptorium.Runtime.{
  SandboxConfig, container_spec, exit_code_of, ExecParams, i64_of_u64, minus_one, i64_max,
}

-- The claims on a container's specification.
abbrev IsConfined : SandboxConfig → ExecParams → ContainerSpec → Type 0
IsConfined cfg req spec =
    (spec.readonly_rootfs ≡ true)
    × (spec.auto_remove ≡ true)
    × (fits_signed 64 spec.memory ≡ true)
    × (fits_signed 64 spec.nano_cpus ≡ true)
    × (fits_signed 64 spec.pids_limit ≡ true)
    × (spec.memory ≡ pos (min req.memory_bytes i64_max))
    × (spec.user_uid ≡ cfg.agent_uid)
    × (length spec.binds ≡ 1)

-- A container runs with a read-only root file system, under the configured uid, removed by Docker at
-- its exit, with one mount. Its memory limit is the requested one, or i64::MAX where that is smaller;
-- where the CPU quota and the PID limit of the request are of 32 bits, those of the container fit an
-- i64, as its memory limit always does.
container_spec-IsConfined :
    (cfg : SandboxConfig) (req : ExecParams)
    → req.cpu_millis < 2 ^ 32
    → req.pids < 2 ^ 32
    → IsConfined cfg req (container_spec cfg req)
unfolding container_spec i64_of_u64
container_spec-IsConfined cfg req c p = ground arith

-- Whatever an i64 exit code is, the code that is reported fits an i32; it is the code itself where
-- that fits, and -1 otherwise.
pub exit_code_of_lem :
    (code : ℤ)
    → (fits_signed 32 (exit_code_of code) ≡ true)
      × (((exit_code_of code ≡ code) × (fits_signed 32 code ≡ true))
          ⊎ ((exit_code_of code ≡ minus_one) × (fits_signed 32 code ≡ false)))
unfolding exit_code_of
exit_code_of_lem code = ground arith
