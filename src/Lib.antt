-- ===== src/Lib.antt =====
-- Verification of MikroLB, a Kubernetes controller that gives services addresses from pools and
-- programs a MikroTik router to serve them.
--
-- A pool lists addresses; the admission webhook checks a pool before it is stored. An allocation asks
-- for an address; its reconciler looks through the pools for one that no other allocation has, with
-- the help of the expectations, which remember what was decided and is not yet in the cache. Then the
-- address is advertised on the router, and the status is written. A service asks for allocations by
-- its annotations; its reconciler keeps them, takes their addresses for the load balancer and for
-- SNAT, and hands the service with its endpoints to the backend. The backend programs the router by
-- lists of rules, and the router's client brings what the router has in line with them.
--
-- The files, and the code that each models:
--   Common          shared names; results, tests, lists, and the functions of `strings` that are used
--   Net             addresses of `netip` without zones: a family and a number; the texts of addresses
--                   are a parameter, `Net.Text.AddrText`, sound if what is read fits its family
--   IpRange         internal/core/ip_range.go and ip_family.go: `IPRange`, `ParseIPRange`, `Iter`
--   IpRangeSet      internal/core/ip_range_set.go: `merge`, `subtract`, `intersection`, the methods
--   Pool            internal/controller/ip_pool.go and ip_pool_webhook.go, api/v1alpha1/ippool_types.go
--   Allocation      api/v1alpha1/ipallocation_types.go; the helpers for conditions are a parameter
--   Expectations    internal/controller/ip_allocation_expectations.go; a map is a function of its keys
--   Allocator       internal/controller/ip_allocation_reconciler.go: which address is chosen
--   Reconcile       the same file: the deletion of an allocation, and its status; the calls that leave
--                   the controller are a parameter, `World`
--   PoolStatus      internal/controller/ip_pool_reconciler.go: counts, triggers and the handler; the API
--                   server's answers are a parameter, `Handler.PoolWorld`
--   RouterNames     internal/utils/hash.go, internal/routeros/utils.go, and names of the backend; SHA-256
--                   is a parameter
--   Service         internal/core/service.go
--   ServiceReconcile
--                   internal/controller/service_reconciler.go: the annotations, the expected
--                   allocations, the addresses, the endpoints and the handler; the API server and the
--                   backend are a parameter, `Handler.ServiceWorld`
--   Json            internal/routeros/api/gjson.go; gjson is a parameter
--   Sync            `Sync` of internal/routeros/api/client.go; the requests are a parameter
--   Policies        `Policies` of the same file
--   Backend         internal/routeros/backend.go: the rules, lists and chains as calls of `Sync`, and the
--                   operations as actions that pass the router's state on; texts that Go formats are a
--                   parameter, `Formats`
--   Gratuitous      internal/routeros/gratuitous.go; gopacket is a parameter
--   Route           `determineInterfaceForIP` of internal/routeros/backend.go
--   Examples        concrete inputs, and the theorems applied to them
--
-- Loops are structural recursion, but two: `subtract_loop` recurses on its two lists as its indices
-- advance, and `iter_loop` has fuel, the number of addresses in the range, which is enough since it
-- visits each of them once. Slices are values, so the sharing of their arrays is not modelled; a Go map
-- is read in the order of a list. HTTP, the configuration, the start-up, the registration with the
-- manager, logs and events are not modelled: they only call libraries. `FormatCount` computes with
-- `big.Float`, whose rounding is a library's.
pub mod Common
pub mod Net
pub mod IpRange
pub mod IpRangeSet
pub mod Pool
pub mod Allocation
pub mod Expectations
pub mod Allocator
pub mod Backend
pub mod Gratuitous
pub mod Json
pub mod Sync
pub mod Route
pub mod Reconcile
pub mod RouterNames
pub mod Service
pub mod ServiceReconcile
pub mod PoolStatus
pub mod Policies
pub mod Examples
