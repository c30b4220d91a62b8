-- ===== src/IpRange/Iter/Cycle.antt =====
-- The addresses that `IPRange.Iter` (internal/core/ip_range.go) yields.
use mikrolb.Common.{
  ℕ, zero, suc, ◌+◌, ◌-◌, ◌%◌, ◌<◌, ◌≤◌, ◌≡◌, ◌≢◌, refl, ap, sym, ◌∙◌, true, false, not, ◌||◌, ◌==◌,
  some, List, [], ◌∷◌, ◌++◌, map, if◌then◌else◌, arith, Bool-cases, dec_lt, inl, inr, append-nil,
}
use mikrolb.Net.{Addr, IpFamily, value, addr_eq, next_addr, prev_addr}
use mikrolb.Net.Order.{
  IsOf, space, addr_of, addr_of-value, addr_eq-value, next_addr_lem, prev_addr_lem, value-lt-space,
  bit_len-IsOf, addr_from-bits_of, value-addr_of, IsOf-addr_of,
}
use mikrolb.IpRange.{IpRange, count}
use mikrolb.IpRange.Bounds.{IsRange}
use mikrolb.IpRange.Iter.{iter_loop, iter_start, iter}

-- `n` numbers from `k` on.
abbrev pub seq : ℕ → ℕ → List ℕ
seq k zero = []
seq k (suc n) = k ∷ seq (suc k) n

-- Two addresses of a family are equal, for `==`, exactly if their values are.
addr_eq-true :
    (f : IpFamily) (a b : Addr) → IsOf f a → IsOf f b → value a ≡ value b → addr_eq a b ≡ true
addr_eq-true f a b ha hb e = addr_eq-value f a b ha hb ∙ ground arith

addr_eq-false :
    (f : IpFamily) (a b : Addr) → IsOf f a → IsOf f b → value a ≢ value b → addr_eq a b ≡ false
addr_eq-false f a b ha hb e = addr_eq-value f a b ha hb ∙ ground arith

module _ (f : IpFamily) (r : IpRange) (start : Addr) where
  -- With `end` as the place to stop, the loop runs up to it.
  run_up :
      (end : Addr)
      → IsOf f end
      → addr_eq start r.start || not (addr_eq end r.end) ≡ true
      → (d fuel : ℕ) (addr : Addr) → IsOf f addr
      → value addr + d ≡ value end
      → d < fuel
      → iter_loop r start fuel addr end ≡ some (map (addr_of f) (seq (value addr) (suc d)))
  unfolding iter_loop
  run_up end he stop d zero addr ha e h = absurd (omega arith)
  run_up end he stop zero (suc fuel) addr ha e h =
      rw (addr_eq-true f addr end ha he (omega arith), iter_loop)
        (rw (stop, iter_loop) (ap (λ a. some (a ∷ [])) (sym (addr_of-value f addr ha))))
  run_up end he stop (suc d) (suc fuel) addr ha e h =
      let (of, at) = next_addr_lem f addr ha (omega (arith, value-lt-space f end he)) in
      rw (
        addr_eq-false f addr end ha he (omega arith),
        iter_loop,
        run_up end he stop d fuel (next_addr addr) of (omega arith) (omega arith),
        at,
        addr_of-value f addr ha,
      )

  -- From a start inside the range the loop runs up to the end, wraps around, and stops before the
  -- start.
  run_around :
      IsRange f r
      → IsOf f start
      → value r.start < value start
      → value start ≤ value r.end
      → (d fuel : ℕ) (addr : Addr) → IsOf f addr
      → value addr + d ≡ value r.end
      → d + (value start - value r.start) < fuel
      → iter_loop r start fuel addr r.end
        ≡ some (
            map
              (addr_of f)
              (seq (value addr) (suc d) ++ seq (value r.start) (value start - value r.start)))
  unfolding iter_loop
  run_around hr hs wrap within d zero addr ha e h = absurd (omega arith)
  run_around hr hs wrap within zero (suc fuel) addr ha e h =
      let (of, at) = prev_addr_lem f start hs (omega arith) in
      let m = value start - value r.start - 1 in
      let before = addr_eq-false f (prev_addr start) r.end of hr.end_of (omega arith) in
      let rest : iter_loop r start fuel r.start (prev_addr start)
          ≡ some (map (addr_of f) (seq (value r.start) (suc m))) =
        run_up (prev_addr start) of
          (rw (before, addr_eq-false f start r.start hs hr.start_of (omega arith))) m fuel r.start
          hr.start_of (omega arith) (omega arith) in
      let steps : value start - value r.start ≡ suc m = omega arith in
      rw (addr_eq-true f addr r.end ha hr.end_of (omega arith), iter_loop)
        (rw
          (
            addr_eq-false f start r.start hs hr.start_of (omega arith),
            addr_eq-true f r.end r.end hr.end_of hr.end_of refl,
            iter_loop,
          )
          (rw (rest, addr_of-value f addr ha)
            (ap (λ n. some (addr ∷ map (addr_of f) (seq (value r.start) n))) (sym steps))))
  run_around hr hs wrap within (suc d) (suc fuel) addr ha e h =
      let (of, at) = next_addr_lem f addr ha (omega (arith, value-lt-space f r.end hr.end_of)) in
      rw (
        addr_eq-false f addr r.end ha hr.end_of (omega arith),
        iter_loop,
        run_around hr hs wrap within d fuel (next_addr addr) of (omega arith) (omega arith),
        at,
        addr_of-value f addr ha,
      )

loop_cycle :
    (f : IpFamily) (r : IpRange)
    → IsRange f r
    → (start : Addr) (off : ℕ) → IsOf f start
    → value start ≡ value r.start + off
    → off < count r
    → iter_loop r start (count r) start r.end
      ≡ some
          (map (addr_of f) (seq (value r.start + off) (count r - off) ++ seq (value r.start) off))
unfolding count
loop_cycle f r hr start off hs at below =
    let up : suc (value r.end - value start) ≡ value r.end + 1 - value r.start - off =
      omega arith in
    let skipped : value start - value r.start ≡ off = omega arith in
    elim (dec_lt 0 off) [
      | yes wrap ↦
          run_around f r start hr hs (omega arith) (omega arith) (value r.end - value start) _ start
            hs (omega arith) (omega arith)
          ∙ λ i. some (map (addr_of f) (seq (at i) (up i) ++ seq (value r.start) (skipped i)))
      | no whole ↦
          let none_skipped : 0 ≡ off = omega arith in
          run_up f r start r.end hr.end_of
            (rw (addr_eq-true f start r.start hs hr.start_of (omega arith)))
            (value r.end - value start) _ start hs (omega arith) (omega arith)
          ∙ ap (λ l. some (map (addr_of f) l))
              (sym (append-nil (seq (value start) (suc (value r.end - value start)))))
          ∙ λ i. some (map (addr_of f) (seq (at i) (up i) ++ seq (value r.start) (none_skipped i)))
    ]

-- Where the iterator starts: this many addresses into the range.
abbrev pub offset : IpRange → ℕ → ℕ
offset r hash = if hash == 0 then 0 else hash % count r

module _ (f : IpFamily) (r : IpRange) (hash : ℕ) (hr : IsRange f r) where
  pub count-value : count r ≡ value r.end + 1 - value r.start
  unfolding count
  count-value = refl

  pub offset-lt-count : offset r hash < count r
  unfolding count
  offset-lt-count = ground (arith, hr.ordered)

  iter_start-value :
      IsOf f (iter_start r hash) × (value (iter_start r hash) ≡ value r.start + offset r hash)
  unfolding iter_start
  iter_start-value =
      let below : value r.start + offset r hash < space f =
        omega (arith, offset-lt-count, count-value, value-lt-space f r.end hr.end_of) in
      elim (Bool-cases (hash == 0)) [
        | inl same ↦ rw (same, iter_start) (hr.start_of, omega arith)
        | inr moved ↦
            rw (moved, iter_start, bit_len-IsOf f r.start hr.start_of)
              (rw (addr_from-bits_of f (value r.start + hash % count r))
                (IsOf-addr_of f _ (rw (moved) at below), value-addr_of f _ (rw (moved) at below)))
      ]

  iter_lem : iter r hash ≡ iter_loop r (iter_start r hash) (count r) (iter_start r hash) r.end
  unfolding iter
  iter_lem = refl

  -- On a range of one family with its ends in order the iterator ends, and visits every address
  -- exactly once: from the offset up to the end, then from the start up to the offset.
  pub iter_cycle :
      iter r hash
      ≡ some (
          map (addr_of f) (
            seq (value r.start + offset r hash) (count r - offset r hash)
            ++ seq (value r.start) (offset r hash)))
  iter_cycle =
      iter_lem
      ∙ loop_cycle f r hr (iter_start r hash) (offset r hash) iter_start-value.0 iter_start-value.1
          offset-lt-count
