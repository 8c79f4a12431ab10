-- ===== src/Cli/ExitCode.antt =====
-- The exit code of cli.py's `run`, for a run that produced a report.
use vdev_lab.Base.{leb, leb→le, Bool-cases, inl, inr, ℕ, zero, suc, ◌≤◌, ◌≡◌, ◌↔◌, refl, arith}
use vdev_lab.Base.Int.{ℤ, pos, negsuc}
use vdev_lab.Report.{ReportStatus, pass, fail, error, timeout}
use vdev_lab.Cli.{exit_code_of, pass_code, result_code}

-- The exit code is 0 if and only if the report passed and the application exited with 0.
pub exit_code_of-zero :
    (status : ReportStatus) (exit_code : ℤ)
    → (exit_code_of status exit_code ≡ pos 0) ↔ ((status ≡ pass) × (exit_code ≡ pos 0))
unfolding exit_code_of
exit_code_of-zero pass (pos n) = ground arith
exit_code_of-zero pass (negsuc n) = ground arith
exit_code_of-zero fail (pos n) = ground arith
exit_code_of-zero fail (negsuc n) = ground arith
exit_code_of-zero error (pos n) = ground arith
exit_code_of-zero error (negsuc n) = ground arith
exit_code_of-zero timeout (pos n) = ground arith
exit_code_of-zero timeout (negsuc n) = ground arith

pass_code-bounds : (status : ReportStatus) → (n : ℕ) × (pass_code status ≡ pos n) × (n ≤ 125)
pass_code-bounds pass = (0, refl, omega arith)
pass_code-bounds fail = (1, refl, omega arith)
pass_code-bounds error = (1, refl, omega arith)
pass_code-bounds timeout = (1, refl, omega arith)

result_code-bounds :
    (status : ReportStatus) (exit_code : ℤ)
    → (n : ℕ) × (result_code status exit_code ≡ pos n) × (n ≤ 125)
result_code-bounds status (pos zero) = pass_code-bounds status
result_code-bounds status (pos (suc n)) = elim (Bool-cases (leb (suc n) 125)) [
  | inl h ↦ (suc n, ground arith, leb→le (suc n) 125 h)
  | inr h ↦ (1, ground arith, omega arith)
]
result_code-bounds status (negsuc n) = (1, ground arith, omega arith)

-- The exit code is a number from 0 to 125.
pub exit_code_of-bounds :
    (status : ReportStatus) (exit_code : ℤ)
    → (n : ℕ) × (exit_code_of status exit_code ≡ pos n) × (n ≤ 125)
unfolding exit_code_of
exit_code_of-bounds timeout exit_code = (124, refl, omega arith)
exit_code_of-bounds pass exit_code = result_code-bounds pass exit_code
exit_code_of-bounds fail exit_code = result_code-bounds fail exit_code
exit_code_of-bounds error exit_code = result_code-bounds error exit_code
