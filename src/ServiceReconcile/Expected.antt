-- ===== src/ServiceReconcile/Expected.antt =====
-- The expected allocations of a service in `ServiceReconciler.Reconcile`: their names, and which
-- allocations are deleted and created.
use Prim.Native.String.{◌++◌ as append, slice}
use mikrolb.Allocation.{AllocationSpec, IpAllocation, Phase, pending}
use mikrolb.Common.{
  ℕ, zero, suc, ◌+◌, ◌/◌, ◌%◌, Bool, ◌&&◌, ◌||◌, false, List, [], ◌∷◌, String, str_eq,
  if◌then◌else◌,
}
use mikrolb.Net.{IpFamily, ipv4, ipv6, unknown, family_eq}
use mikrolb.RouterNames.{Digest}
use mikrolb.ServiceReconcile.{
  KubeService, label_service_name, label_service_namespace, label_service_uid,
}

pub record Expected : Type 0 where
  pub name : String
  pub spec : AllocationSpec

-- An allocation that is to be created.
pub record NewAllocation : Type 0 where
  pub name : String
  pub spec : AllocationSpec
  pub labels : List (String × String)
  pub phase : Phase

unfoldable pub spec_eq : AllocationSpec → AllocationSpec → Bool
spec_eq a b =
    str_eq a.address b.address && str_eq a.pool_name b.pool_name && family_eq a.family b.family

-- `slices.CompactFunc`: the first of a run of equal elements is kept.
unfoldable pub compact_specs_after : AllocationSpec → List AllocationSpec → List AllocationSpec
unfolding spec_eq
compact_specs_after kept [] = []
compact_specs_after kept (spec ∷ specs) =
    let skipped = compact_specs_after kept specs in
    let rest = compact_specs_after spec specs in if spec_eq kept spec then skipped else spec ∷ rest

unfoldable pub compact_specs : List AllocationSpec → List AllocationSpec
unfolding compact_specs_after
compact_specs [] = []
compact_specs (spec ∷ specs) = spec ∷ compact_specs_after spec specs

unfoldable pub family_text : IpFamily → String
family_text ipv4 = "IPv4"
family_text ipv6 = "IPv6"
family_text unknown = ""

abbrev pub hex_digits : String
hex_digits = "0123456789abcdef"

-- `%x` of the first bytes.
unfoldable pub hex_text : ℕ → List ℕ → String
hex_text zero bytes = ""
hex_text (suc n) [] = ""
hex_text (suc n) (b ∷ bytes) =
    append (slice hex_digits (b / 16) (b / 16 + 1))
      (append (slice hex_digits (b % 16) (b % 16 + 1)) (hex_text n bytes))

module _ (digest : Digest) where
  unfoldable pub allocation_name : String → AllocationSpec → String
  unfolding family_text hex_text
  allocation_name uid spec = append "ip-" (
      hex_text 6 (
        digest.sum256 (
          append uid (
            append "/" (
              append spec.address
                (append "/" (append spec.pool_name (append "/" (family_text spec.family)))))))))

  unfoldable pub name_specs : String → List AllocationSpec → List Expected
  unfolding allocation_name
  name_specs uid [] = []
  name_specs uid (spec ∷ specs) =
      record { name = allocation_name uid spec; spec = spec } ∷ name_specs uid specs

-- The inner loops that set `found`.
unfoldable pub is_expected : String → List Expected → Bool
is_expected name [] = false
is_expected name (e ∷ es) = str_eq name e.name || is_expected name es

unfoldable pub is_listed : String → List IpAllocation → Bool
is_listed name [] = false
is_listed name (alloc ∷ allocs) = str_eq alloc.name name || is_listed name allocs

unfoldable pub new_allocation : KubeService → Expected → NewAllocation
new_allocation svc e = record {
  name = e.name;
  spec = e.spec;
  labels =
      (label_service_uid, svc.uid)
      ∷ (label_service_name, svc.name)
      ∷ (label_service_namespace, svc.namespace)
      ∷ [];
  phase = pending;
}

-- The writes of both loops, whose errors are logged only, as a parameter.
pub record AllocationWrites (W : Type 0) : Type 0 where
  pub delete_allocation : W → IpAllocation → W × Bool
  pub create_allocation : W → NewAllocation → W × Bool

module _ {W : Type 0} (writes : AllocationWrites W) where
  unfoldable pub delete_unexpected : List Expected → List IpAllocation → W → W
  unfolding is_expected
  delete_unexpected expected [] w = w
  delete_unexpected expected (alloc ∷ allocs) w =
      let passed = delete_unexpected expected allocs w in
      let deleted = delete_unexpected expected allocs (writes.delete_allocation w alloc).0 in
      if is_expected alloc.name expected then passed else deleted

  unfoldable pub create_missing : KubeService → List IpAllocation → List Expected → W → W
  unfolding is_listed new_allocation
  create_missing svc allocs [] w = w
  create_missing svc allocs (e ∷ es) w =
      let passed = create_missing svc allocs es w in
      let (w', done) = writes.create_allocation w (new_allocation svc e) in
      let created = create_missing svc allocs es w' in
      if is_listed e.name allocs then passed else created
