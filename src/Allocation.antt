-- ===== src/Allocation.antt =====
-- `IPAllocation` (api/v1alpha1/ipallocation_types.go) and what the controllers use of the Kubernetes
-- helpers for its conditions.
use mikrolb.Common.{ℕ, Bool, String, List, Option}
use mikrolb.Net.{IpFamily}

pub data Phase : Type 0 where
  pending allocated programmed failed : Phase

pub data ConditionType : Type 0 where
  ready_type allocated_type programmed_type : ConditionType

pub data ConditionStatus : Type 0 where
  status_true status_false status_unknown : ConditionStatus

-- Times are numbers of nanoseconds; the zero `time.Time` is 0.
pub record Condition : Type 0 where
  pub type : ConditionType
  pub status : ConditionStatus
  pub reason : String
  pub message : String
  pub observed_generation : ℕ
  pub last_transition_time : ℕ

-- The family is `unknown` where the field is empty; the API server admits no other name.
pub record AllocationSpec : Type 0 where
  pub family : IpFamily
  pub pool_name : String
  pub address : String

pub record AllocationStatus : Type 0 where
  pub phase : Phase
  pub address : String
  pub advertised : Bool
  pub interface_name : String
  pub conditions : List Condition

-- `update_triggered`: the annotation `mikrolb.de/update` is there.
pub record IpAllocation : Type 0 where
  pub name : String
  pub uid : String
  pub generation : ℕ
  pub update_triggered : Bool
  pub spec : AllocationSpec
  pub status : AllocationStatus

-- `FindStatusCondition` and `SetStatusCondition` of k8s.io/apimachinery/pkg/api/meta, as a parameter;
-- the second also says whether it changed something.
pub record Meta : Type 0 where
  pub find_status_condition : List Condition → ConditionType → Option Condition
  pub set_status_condition : List Condition → Condition → List Condition × Bool
