-- ===== src/Api.antt =====
-- api/v1/mckube_types.go: the MCKube resource, without the metadata that nothing here reads. A
-- pointer is an Option; the time of the last overrun is in nanoseconds.
use mc_kube.Prelude.{String, Option, ℤ}

pub record RtSettings : Type 0 where
  pub period : ℤ
  pub runtime_low : ℤ
  pub runtime_hi : ℤ
  pub core : Option String

pub record MckubeSpec : Type 0 where
  pub node : String
  pub pod_name : String
  pub criticality : String
  pub pressured_deadlines_total : ℤ
  pub pressured_deadlines_period : ℤ
  pub rt_settings : Option RtSettings

pub record MckubeStatus : Type 0 where
  pub current_runtime : String
  pub last_overrun_time : Option ℤ
  pub allocated_core : String

pub record Mckube : Type 0 where
  pub name : String
  pub namespace : String
  pub spec : MckubeSpec
  pub status : MckubeStatus
