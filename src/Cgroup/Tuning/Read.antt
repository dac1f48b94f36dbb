-- ===== src/Cgroup/Tuning/Read.antt =====
-- From the files of the control groups to the plan: `ReadLimitsCustom`, the bytes of the running executable, and
-- `ResolveTuningPlanWithProfile`.
use microfat.Cgroup.Floats.{Floats}
