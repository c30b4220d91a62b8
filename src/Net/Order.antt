-- ===== src/Net/Order.antt =====
-- The operations on addresses of one family, through their values.
use mikrolb.Common.{
  ℕ, suc, ◌-◌, ◌≤◌, ◌<◌, ◌≡◌, refl, ap, true, false, compare, ltb, leb, ◌==◌, arith,
}
use mikrolb.Net.{
  Addr, invalid, v4, v6, IpFamily, ipv4, ipv6, unknown, value, compare_addr, less, at_most, addr_eq,
  next_addr, prev_addr, mod4, mod6, get_ip_family, bit_len, family_eq, addr_from, is_valid,
}

-- The number of addresses of a family.
abbrev pub space : IpFamily → ℕ
space ipv4 = mod4
space ipv6 = mod6
space unknown = 0

-- An address of the family whose value fits its bits.
abbrev pub IsOf : IpFamily → Addr → Type 0
IsOf ipv4 (v4 n) = n < mod4
IsOf ipv6 (v6 n) = n < mod6
IsOf _ _ = ⊥

pub compare_addr-value :
    (f : IpFamily) (a b : Addr)
    → IsOf f a
    → IsOf f b
    → compare_addr a b ≡ compare (value a) (value b)
unfolding compare_addr
compare_addr-value ipv4 (v4 n) (v4 m) ha hb = refl
compare_addr-value ipv6 (v6 n) (v6 m) ha hb = refl
compare_addr-value _ _ _ ha hb = ground arith

abbrev pub bits_of : IpFamily → ℕ
bits_of ipv4 = 32
bits_of ipv6 = 128
bits_of unknown = 0

module _ (f : IpFamily) (a b : Addr) (ha : IsOf f a) (hb : IsOf f b) where
  pub less-value : less a b ≡ ltb (value a) (value b)
  unfolding less
  less-value = rw (compare_addr-value f a b ha hb, less)

  pub at_most-value : at_most a b ≡ leb (value a) (value b)
  unfolding at_most
  at_most-value = rw (compare_addr-value f a b ha hb, at_most)

  pub less_yes : value a < value b → less a b ≡ true
  less_yes h = rw less-value (ground arith)

  pub less_no : value b ≤ value a → less a b ≡ false
  less_no h = rw less-value (ground arith)

  pub at_most_yes : value a ≤ value b → at_most a b ≡ true
  at_most_yes h = rw at_most-value (ground arith)

  pub at_most_no : value b < value a → at_most a b ≡ false
  at_most_no h = rw at_most-value (ground arith)

pub addr_eq-value :
    (f : IpFamily) (a b : Addr) → IsOf f a → IsOf f b → addr_eq a b ≡ (value a == value b)
addr_eq-value ipv4 (v4 n) (v4 m) ha hb = refl
addr_eq-value ipv6 (v6 n) (v6 m) ha hb = refl
addr_eq-value _ _ _ ha hb = ground arith

pub value-injective : (f : IpFamily) (a b : Addr) → IsOf f a → IsOf f b → value a ≡ value b → a ≡ b
value-injective ipv4 (v4 n) (v4 m) ha hb e = ap v4 e
value-injective ipv6 (v6 n) (v6 m) ha hb e = ap v6 e
value-injective _ _ _ ha hb e = ground arith

pub value-lt-space : (f : IpFamily) (a : Addr) → IsOf f a → value a < space f
value-lt-space ipv4 (v4 n) h = h
value-lt-space ipv6 (v6 n) h = h
value-lt-space _ _ h = ground arith

-- Below an address of the family `Next` does not run out, and adds one.
pub next_addr_lem :
    (f : IpFamily) (a : Addr)
    → IsOf f a
    → suc (value a) < space f
    → IsOf f (next_addr a) × (value (next_addr a) ≡ suc (value a))
unfolding next_addr
next_addr_lem ipv4 (v4 n) ha h = ground arith
next_addr_lem ipv6 (v6 n) ha h = ground arith
next_addr_lem _ _ ha h = ground arith

-- Past the last address of the family `Next` gives the zero `Addr`.
pub next_addr_last :
    (f : IpFamily) (a : Addr) → IsOf f a → suc (value a) ≡ space f → next_addr a ≡ invalid
unfolding next_addr
next_addr_last ipv4 (v4 n) ha h = ground arith
next_addr_last ipv6 (v6 n) ha h = ground arith
next_addr_last _ _ ha h = ground arith

pub prev_addr_lem :
    (f : IpFamily) (a : Addr)
    → IsOf f a
    → 0 < value a
    → IsOf f (prev_addr a) × (value (prev_addr a) ≡ value a - 1)
unfolding prev_addr
prev_addr_lem ipv4 (v4 n) ha h = ground arith
prev_addr_lem ipv6 (v6 n) ha h = ground arith
prev_addr_lem _ _ ha h = ground arith

pub prev_addr_first : (f : IpFamily) (a : Addr) → IsOf f a → value a ≡ 0 → prev_addr a ≡ invalid
unfolding prev_addr
prev_addr_first ipv4 (v4 n) ha h = ground arith
prev_addr_first ipv6 (v6 n) ha h = ground arith
prev_addr_first _ _ ha h = ground arith

pub get_ip_family-IsOf : (f : IpFamily) (a : Addr) → IsOf f a → get_ip_family a ≡ f
get_ip_family-IsOf ipv4 (v4 n) h = refl
get_ip_family-IsOf ipv6 (v6 n) h = refl
get_ip_family-IsOf _ _ h = ground arith

-- The address of a family with a given value.
abbrev pub addr_of : IpFamily → ℕ → Addr
addr_of ipv4 n = v4 n
addr_of ipv6 n = v6 n
addr_of unknown n = invalid

pub addr_of-value : (f : IpFamily) (a : Addr) → IsOf f a → addr_of f (value a) ≡ a
addr_of-value ipv4 (v4 n) h = refl
addr_of-value ipv6 (v6 n) h = refl
addr_of-value _ _ h = ground arith

pub IsOf-addr_of : (f : IpFamily) (n : ℕ) → n < space f → IsOf f (addr_of f n)
IsOf-addr_of ipv4 n h = h
IsOf-addr_of ipv6 n h = h
IsOf-addr_of unknown n h = absurd (omega arith)

pub value-addr_of : (f : IpFamily) (n : ℕ) → n < space f → value (addr_of f n) ≡ n
value-addr_of ipv4 n h = refl
value-addr_of ipv6 n h = refl
value-addr_of unknown n h = absurd (omega arith)

pub bit_len-IsOf : (f : IpFamily) (a : Addr) → IsOf f a → bit_len a ≡ bits_of f
bit_len-IsOf ipv4 (v4 n) h = refl
bit_len-IsOf ipv6 (v6 n) h = refl
bit_len-IsOf _ _ h = ground arith

pub family_eq_self : (f : IpFamily) → family_eq f f ≡ true
family_eq_self ipv4 = refl
family_eq_self ipv6 = refl
family_eq_self unknown = refl

pub addr_from-bits_of : (f : IpFamily) (n : ℕ) → addr_from (bits_of f) n ≡ addr_of f n
addr_from-bits_of ipv4 n = refl
addr_from-bits_of ipv6 n = refl
addr_from-bits_of unknown n = refl

pub is_valid-IsOf : (f : IpFamily) (a : Addr) → IsOf f a → is_valid a ≡ true
is_valid-IsOf ipv4 (v4 n) h = refl
is_valid-IsOf ipv6 (v6 n) h = refl
is_valid-IsOf _ _ h = ground arith
