-- ===== src/IpRange/Cidr.antt =====
-- The loop of `ParseIPRange` (internal/core/ip_range.go) that sets the host bits of a prefix.
use Prim.Native.Nat.{bit_or}
use native.Mathlib.Numerals.{towards_suc}
use mikrolb.Common.{
  ℕ, zero, suc, ◌+◌, ◌-◌, ◌*◌, ◌/◌, ◌%◌, ◌^◌, ◌≤◌, ◌<◌, ◌≡◌, refl, Bool, true, false, ◌==◌, leb,
  List, [], ◌∷◌, length, All, if◌then◌else◌, arith, dec_lt,
}
use mikrolb.IpRange.Parse.{from_bytes_back, fill_host}

-- A test passes on the numbers under a bound.
passes_to : (ℕ → Bool) → ℕ → Bool
passes_to test zero = true
passes_to test (suc bound) = if test bound then passes_to test bound else false

passes_to-at :
    (test : ℕ → Bool) (bound : ℕ)
    → passes_to test bound ≡ true
    → (k : ℕ) → k < bound
    → test k ≡ true
unfolding passes_to
passes_to-at test zero passed k under = absurd (omega arith)
passes_to-at test (suc bound) passed k under =
    let earlier = λ (rest : passes_to test bound ≡ true). passes_to-at test bound rest k in
    ground (arith, earlier)

-- One byte whose last `c` bits are clear: setting them adds `2 ^ c - 1`.
fills : ℕ → ℕ → Bool
fills c b = if b % 2 ^ c == 0 then bit_or b (0xff / 2 ^ (8 - c)) + 1 == b + 2 ^ c else true

fills_table : passes_to (λ c. passes_to (fills c) 256) 8 ≡ true
unfolding passes_to fills
fills_table = refl

fill_byte :
    (c b : ℕ) → c < 8 → b < 256 → b % 2 ^ c ≡ 0 → suc (bit_or b (0xff / 2 ^ (8 - c))) ≡ b + 2 ^ c
unfolding fills
fill_byte c b hc hb clear =
    let entry : fills c b ≡ true =
      passes_to-at (fills c) 256 (passes_to-at (λ d. passes_to (fills d) 256) 8 fills_table c hc) b
        hb in
    ground (arith, entry)

low_clear : (c b v q : ℕ) → c < 8 → b + 256 * v ≡ q * 2 ^ c → b % 2 ^ c ≡ 0
low_clear zero b v q h e = omega arith
low_clear (suc zero) b v q h e = omega arith
low_clear (suc (suc zero)) b v q h e = omega arith
low_clear (suc (suc (suc zero))) b v q h e = omega arith
low_clear (suc (suc (suc (suc zero)))) b v q h e = omega arith
low_clear (suc (suc (suc (suc (suc zero))))) b v q h e = omega arith
low_clear (suc (suc (suc (suc (suc (suc zero)))))) b v q h e = omega arith
low_clear (suc (suc (suc (suc (suc (suc (suc zero))))))) b v q h e = omega arith
low_clear (suc (suc (suc (suc (suc (suc (suc (suc c)))))))) b v q h e = absurd (omega arith)

pub pow_byte : (c : ℕ) → 2 ^ (c + 8) ≡ 256 * 2 ^ c
pow_byte c = simp towards_suc (omega arith)

abbrev pub IsByte : ℕ → Type 0
IsByte b = b < 256

-- Setting the last `c` clear bits of a number adds `2 ^ c - 1`.
pub fill_host-value :
    (bs : List ℕ) (c q : ℕ)
    → All IsByte bs
    → c ≤ 8 * length bs
    → from_bytes_back bs ≡ q * 2 ^ c
    → suc (from_bytes_back (fill_host bs c)) ≡ from_bytes_back bs + 2 ^ c
unfolding fill_host from_bytes_back
fill_host-value [] c q h le e = let none_left : c ≡ 0 = omega arith in rw none_left (omega arith)
fill_host-value (b ∷ bs) c q h le e = elim (dec_lt 0 c) [
  | no none_left ↦ let zero_left : c ≡ 0 = omega arith in rw zero_left (omega arith)
  | yes some_left ↦
      let not_none : (c == 0) ≡ false = ground arith in
      elim (dec_lt c 8) [
        | yes part ↦
            let not_whole : leb 8 c ≡ false = ground arith in
            rw (not_none, fill_host)
              (rw (not_whole, fill_host)
                (omega
                  (arith, fill_byte c b part h.0 (low_clear c b (from_bytes_back bs) q part e))))
        | no whole ↦
            let is_whole : leb 8 c ≡ true = ground arith in
            let split : c - 8 + 8 ≡ c = omega arith in
            let pow : 2 ^ c ≡ 256 * 2 ^ (c - 8) = rw split at (pow_byte (c - 8)) in
            let e' : b + 256 * from_bytes_back bs ≡ q * (256 * 2 ^ (c - 8)) = rw pow at e in
            let rest : from_bytes_back bs ≡ q * 2 ^ (c - 8) = omega (arith, h.0, e') in
            let ih = fill_host-value bs (c - 8) q h.1 (omega arith) rest in
            rw (not_none, fill_host) (rw (is_whole, fill_host) (omega (arith, ih, pow, e', rest)))
      ]
]
