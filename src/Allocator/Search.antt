-- ===== src/Allocator/Search.antt =====
-- The loops of the dynamic allocation over ranges and addresses.
use mikrolb.Common.{
  ℕ, zero, suc, ◌+◌, ◌-◌, ◌≤◌, ◌<◌, ◌≡◌, ◌≢◌, refl, ap, ◌⊎◌, inl, inr, true, false, Option, none,
  some, List, [], ◌∷◌, ◌++◌, map, All, arith, Bool-cases, Option-cases, subst, sym, dec_lt,
}
use mikrolb.Net.{Addr, IpFamily, value}
use mikrolb.Net.Order.{IsOf, addr_of, addr_of-value, IsOf-addr_of, value-addr_of, value-lt-space}
use mikrolb.IpRange.{IpRange, count}
use mikrolb.IpRange.Bounds.{IsRange, IsIn}
use mikrolb.IpRange.Iter.{iter}
use mikrolb.IpRange.Iter.Cycle.{seq, offset, iter_cycle, count-value, offset-lt-count}
use mikrolb.IpRangeSet.Normal.{In, AllRanges}
use mikrolb.Allocation.{IpAllocation}
use mikrolb.Expectations.{Pending, Expectations, of_other, stage_allocation}
use mikrolb.Allocator.{pending_for, try_addresses, yielded, try_ranges}

All-seq : (P : ℕ → Type 0) (k n : ℕ) → ((j : ℕ) → k ≤ j → j < k + n → P j) → All P (seq k n)
All-seq P k zero h = tt
All-seq P k (suc n) h = (
  h k (omega arith) (omega arith),
  All-seq P (suc k) n (λ j a b. h j (omega arith) (omega arith)),
)

All-seq_at : (P : ℕ → Type 0) (k n : ℕ) → All P (seq k n) → (j : ℕ) → k ≤ j → j < k + n → P j
All-seq_at P k zero h j a b = absurd (omega arith)
All-seq_at P k (suc n) h j a b = elim (dec_lt k j) [
  | yes after ↦ All-seq_at P (suc k) n h.1 j after (omega arith)
  | no here ↦ let same : k ≡ j = omega arith in subst P same h.0
]

-- A predicate on all elements of a mapped concatenation, from both parts and to them.
All-map :
    (f : ℕ → Addr) (P : Addr → Type 0) (xs ys : List ℕ)
    → All (λ k. P (f k)) xs
    → All (λ k. P (f k)) ys
    → All P (map f (xs ++ ys))
All-map f P [] [] hx hy = tt
All-map f P [] (y ∷ ys) hx hy = (hy.0, All-map f P [] ys tt hy.1)
All-map f P (x ∷ xs) ys hx hy = (hx.0, All-map f P xs ys hx.1 hy)

All-map_at :
    (f : ℕ → Addr) (P : Addr → Type 0) (xs ys : List ℕ)
    → All P (map f (xs ++ ys))
    → All (λ k. P (f k)) xs × All (λ k. P (f k)) ys
All-map_at f P [] [] h = (tt, tt)
All-map_at f P [] (y ∷ ys) h = (tt, (h.0, (All-map_at f P [] ys h.1).1))
All-map_at f P (x ∷ xs) ys h = let rest = All-map_at f P xs ys h.1 in ((h.0, rest.0), rest.1)

-- The addresses that an iterator yields are those of its range.
module _ (f : IpFamily) (r : IpRange) (hash : ℕ) (hr : IsRange f r) (P : Addr → Type 0) where
  pub yielded-All :
      ((ip : Addr) → IsOf f ip → IsIn (value ip) r → P ip) → All P (yielded (iter r hash))
  yielded-All h =
      let below = value-lt-space f r.end hr.end_of in
      let lt = offset-lt-count f r hash hr in
      let n = count-value f r hash hr in
      let each : (j : ℕ) → value r.start ≤ j → j ≤ value r.end → P (addr_of f j) = λ j a b.
        let v = value-addr_of f j (omega arith) in
        h (addr_of f j) (IsOf-addr_of f j (omega arith)) (omega arith, omega arith) in
      rw (iter_cycle f r hash hr) (
        All-map (addr_of f) P (seq (value r.start + offset r hash) (count r - offset r hash))
          (seq (value r.start) (offset r hash))
          (All-seq _ _ _ (λ j a b. each j (omega arith) (omega arith)))
          (All-seq _ _ _ (λ j a b. each j (omega arith) (omega arith))))

  pub All-yielded :
      All P (yielded (iter r hash)) → (ip : Addr) → IsOf f ip → IsIn (value ip) r → P ip
  All-yielded h ip of within =
      let lt = offset-lt-count f r hash hr in
      let n = count-value f r hash hr in
      let (up, around) =
        All-map_at (addr_of f) P (seq (value r.start + offset r hash) (count r - offset r hash))
          (seq (value r.start) (offset r hash))
          (subst (λ o. All P (yielded o)) (iter_cycle f r hash hr) h) in
      subst P (addr_of-value f ip of) (elim (dec_lt (value ip) (value r.start + offset r hash)) [
        | yes before ↦ All-seq_at _ _ _ around (value ip) (omega arith) (omega arith)
        | no after ↦ All-seq_at _ _ _ up (value ip) (omega arith) (omega arith)
      ])

module _ (used : Addr → Option ℕ) (alloc : IpAllocation) (now : ℕ) (e : Expectations) where
  -- An address that the allocation cannot have: in use, or pending for another allocation.
  abbrev pub Taken : Addr → Type 0
  Taken ip = (used ip ≢ none) ⊎ (of_other (e.pending_allocations ip) alloc.name ≡ true)

  -- An address that it can have.
  abbrev pub Free : Addr → Type 0
  Free ip = (used ip ≡ none) × (of_other (e.pending_allocations ip) alloc.name ≡ false)

  -- What a search among the addresses of `All` and `Q` gives: nothing, where all are taken, or a
  -- free one of `Q`, staged for the allocation.
  abbrev pub Searched : Type 0 → (Addr → Type 0) → Option (Pending × Expectations) → Type 0
  Searched All Q none = All
  Searched All Q (some (staged, e')) =
      Q staged.address
      × Free staged.address
      × (staged ≡ pending_for alloc now staged.address)
      × (e' ≡ (stage_allocation e staged).0)

  pub stage_yes :
      (ip : Addr)
      → of_other (e.pending_allocations ip) alloc.name ≡ false
      → (stage_allocation e (pending_for alloc now ip)).1 ≡ true
  unfolding stage_allocation
  stage_yes ip h = rw h refl

  pub stage_no :
      (ip : Addr)
      → of_other (e.pending_allocations ip) alloc.name ≡ true
      → stage_allocation e (pending_for alloc now ip) ≡ (e, false)
  unfolding stage_allocation
  stage_no ip h = rw h refl

  pub Searched-imp :
      (A B : Type 0) (Q R : Addr → Type 0) (o : Option (Pending × Expectations))
      → (A → B)
      → ((ip : Addr) → Q ip → R ip)
      → Searched A Q o
      → Searched B R o
  Searched-imp A B Q R none f g h = f h
  Searched-imp A B Q R (some (staged, e')) f g h = (g staged.address h.0, h.1, h.2, h.3)

  next_taken :
      (ip : Addr) (ips : List Addr) (t : ℕ)
      → used ip ≡ some t
      → try_addresses used alloc now e (ip ∷ ips) ≡ try_addresses used alloc now e ips
  unfolding try_addresses
  next_taken ip ips t h = rw (h, try_addresses) refl

  next_pending :
      (ip : Addr) (ips : List Addr)
      → used ip ≡ none
      → of_other (e.pending_allocations ip) alloc.name ≡ true
      → try_addresses used alloc now e (ip ∷ ips) ≡ try_addresses used alloc now e ips
  unfolding try_addresses
  next_pending ip ips h other =
      rw (h, try_addresses)
        (rw (ap (λ p. p.1) (stage_no ip other), try_addresses)
          (ap (λ p. try_addresses used alloc now p.0 ips) (stage_no ip other)))

  stop-Free :
      (ip : Addr) (ips : List Addr)
      → Free ip
      → try_addresses used alloc now e (ip ∷ ips)
        ≡ some (pending_for alloc now ip, (stage_allocation e (pending_for alloc now ip)).0)
  unfolding try_addresses
  stop-Free ip ips h = rw (h.0, try_addresses) (rw (stage_yes ip h.1, try_addresses) refl)

  pub try_addresses-Searched :
      (Q : Addr → Type 0) (ips : List Addr)
      → All Q ips
      → Searched (All Taken ips) Q (try_addresses used alloc now e ips)
  unfolding try_addresses
  try_addresses-Searched Q [] h = tt
  try_addresses-Searched Q (ip ∷ ips) h =
      let result = Searched (All Taken (ip ∷ ips)) Q in
      let rest = λ (taken : Taken ip).
        Searched-imp (All Taken ips) (All Taken (ip ∷ ips)) Q Q (try_addresses used alloc now e ips)
          (λ t. (taken, t)) (λ ip q. q) (try_addresses-Searched Q ips h.1) in
      elim (Option-cases (used ip)) [
        | inl free ↦ elim (Bool-cases (of_other (e.pending_allocations ip) alloc.name)) [
          | inl other ↦ subst result (sym (next_pending ip ips free other)) (rest (inr other))
          | inr own ↦
              subst result (sym (stop-Free ip ips (free, own))) (h.0, (free, own), refl, refl)
        ]
        | inr (t, in_use) ↦ subst result (sym (next_taken ip ips t in_use)) (rest (inl (λ n. cc)))
      ]

  -- The search through ranges of a family: where it finds nothing, every address that they hold is
  -- taken; what it finds is free, lies in one of them, and is staged.
  pub try_ranges-Searched :
      (f : IpFamily) (hash : ℕ) (rs : List IpRange)
      → AllRanges f rs
      → Searched
          ((ip : Addr) → IsOf f ip → In (value ip) rs → Taken ip)
          (λ ip. IsOf f ip × In (value ip) rs)
          (try_ranges used alloc now e hash rs)
  unfolding try_ranges
  try_ranges-Searched f hash [] h = λ ip of m. absurd m
  try_ranges-Searched f hash (r ∷ rs) h =
      go (try_addresses used alloc now e (yielded (iter r hash)))
        (try_addresses-Searched (λ ip. IsOf f ip × IsIn (value ip) r) (yielded (iter r hash))
          (yielded-All f r hash h.0 _ (λ ip of within. (of, within))))
        (try_ranges-Searched f hash rs h.1)
    where
      go :
          (o : Option (Pending × Expectations))
          → Searched (All Taken (yielded (iter r hash))) (λ ip. IsOf f ip × IsIn (value ip) r) o
          → Searched
              ((ip : Addr) → IsOf f ip → In (value ip) rs → Taken ip)
              (λ ip. IsOf f ip × In (value ip) rs)
              (try_ranges used alloc now e hash rs)
          → Searched
              ((ip : Addr) → IsOf f ip → In (value ip) (r ∷ rs) → Taken ip)
              (λ ip. IsOf f ip × In (value ip) (r ∷ rs))
              (elim o [ some found ↦ some found | none ↦ try_ranges used alloc now e hash rs ])
      go (some (staged, e')) s rest = ((s.0.0, inl s.0.1), s.1, s.2, s.3)
      go none s rest =
          Searched-imp _ _ _ _ (try_ranges used alloc now e hash rs)
            (λ t ip of m. elim m [
              | inl here ↦ All-yielded f r hash h.0 Taken s ip of here
              | inr later ↦ t ip of later
            ])
            (λ ip q. (q.0, inr q.1)) rest
