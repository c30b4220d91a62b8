-- ===== src/Examples.antt =====
-- Concrete inputs: ranges, a small table of texts in the place of the address parser, pools,
-- allocations and what a router holds. The children apply the library's theorems to them.
mod Ranges
mod Pools
mod Controllers
mod Allocations
mod Routers
mod Services
mod Texts
use mikrolb.Common.{
  ℕ, false, ◌<◌, ◌≤◌, Option, none, some, List, [], String, str_eq, ◌≡◌, arith, ◌∷◌, true, false,
  Bool-cases, inl, inr, subst, if◌then◌else◌,
}
use mikrolb.Net.{Addr, v4, ipv4, unknown, get_ip_family, bit_len}
use mikrolb.Net.Order.{IsOf}
use mikrolb.Net.Text.{AddrText, IsSound}
use mikrolb.IpRange.{IpRange}
use mikrolb.IpRange.Bounds.{IsRange}
use mikrolb.Json.{Gjson, Field, text, flag, number}
use mikrolb.Pool.{Pool}
use mikrolb.Allocation.{IpAllocation, Meta, Condition, pending, allocated}
use mikrolb.Expectations.{Pending, Expectations, new_expectations}

abbrev pub range : ℕ → ℕ → IpRange
range a b = record { start = v4 a; end = v4 b }

pub small_range : (a b : ℕ) → a < 100 → b < 100 → a ≤ b → IsRange ipv4 (range a b)
small_range a b ha hb le = record { start_of = omega arith; end_of = omega arith; ordered = le }

-- Three texts of addresses and one of a prefix.
abbrev pub read_addr : String → Option Addr
read_addr s =
    if str_eq s "0.0.0.1"
    then some (v4 1)
    else if str_eq s "0.0.0.5"
    then some (v4 5)
    else if str_eq s "0.0.0.9"
    then some (v4 9)
    else none

abbrev pub read_prefix : String → Option (Addr × ℕ)
read_prefix s = if str_eq s "0.0.0.0/29" then some (v4 3, 29) else none

abbrev pub table : AddrText
table = record { parse_addr = read_addr; parse_prefix = read_prefix; addr_string = λ a. "0.0.0.5" }

abbrev Small : Option Addr → Type 0
Small none = Unit
Small (some a) = IsOf (get_ip_family a) a

Small-addr : (s : String) → Small (read_addr s)
Small-addr s = elim (Bool-cases (str_eq s "0.0.0.1")) [
  | inl a ↦ rw a (omega arith)
  | inr a ↦ elim (Bool-cases (str_eq s "0.0.0.5")) [
    | inl b ↦ rw a (rw b (omega arith))
    | inr b ↦ elim (Bool-cases (str_eq s "0.0.0.9")) [
      | inl c ↦ rw a (rw b (rw c (omega arith)))
      | inr c ↦ rw a (rw b (rw c tt))
    ]
  ]
]

abbrev SmallPrefix : Option (Addr × ℕ) → Type 0
SmallPrefix none = Unit
SmallPrefix (some (a, bits)) = IsOf (get_ip_family a) a × (bits ≤ bit_len a)

small_prefix : (s : String) → SmallPrefix (read_prefix s)
small_prefix s = elim (Bool-cases (str_eq s "0.0.0.0/29")) [
  | inl a ↦ rw a (omega arith, omega arith)
  | inr a ↦ rw a tt
]

pub table-IsSound : IsSound table
table-IsSound = record {
  addr_of_family = λ s a h. subst Small h (Small-addr s);
  prefix_of_family = λ s a bits h. subst SmallPrefix h (small_prefix s);
}

-- The first condition of a type, and a condition in front of the others.
abbrev pub conditions : Meta
conditions = record {
  find_status_condition = λ cs type. none;
  set_status_condition = λ cs c. (c ∷ cs, true);
}

abbrev pub pool_of : String → List String → Pool
pool_of name addresses = record {
  name = name;
  family = ipv4;
  addresses = addresses;
  auto_assign = true;
  avoid_buggy_ips = false;
  advertise = true;
  interface_name = "bridge";
}

abbrev pub request : String → String → IpAllocation
request name address = record {
  name = name;
  uid = name;
  generation = 1;
  update_triggered = false;
  spec = record { family = unknown; pool_name = ""; address = address };
  status = record {
    phase = pending;
    address = "";
    advertised = false;
    interface_name = "";
    conditions = [];
  };
}

abbrev pub pending_at : String → ℕ → ℕ → Pending
pending_at id k now = record { id = id; address = v4 k; allocated_at = now }

-- Nothing is pending.
abbrev pub fresh : Expectations
fresh = record {
  allocation_timeout = 30;
  pending_allocations = λ ip. none;
  pending_releases = λ ip. none;
}

-- Objects as lists of keys and texts; the escape of a key is left out.
abbrev pub read_key : List (String × String) → String → Option String
read_key [] key = none
read_key ((k, v) ∷ rest) key =
    if str_eq k (if str_eq key "\\.id" then ".id" else key) then some v else read_key rest key

abbrev pub field_text : Field → String
field_text (text s) = s
field_text (flag true) = "true"
field_text (flag false) = "false"
field_text (number n) = "7"

abbrev pub fields_of : List (String × Field) → List (String × String)
fields_of [] = []
fields_of ((key, field) ∷ rest) = (key, field_text field) ∷ fields_of rest

abbrev pub texts_json : Gjson (List (String × String)) String
texts_json = record { entries = λ o. o; get = read_key; string_of = λ v. v; of_request = fields_of }
