-- ===== src/Common/TextLaws.antt =====
-- Laws of the functions on texts: on texts without the characters that they look for, and what the
-- tests for a prefix and a part say.
use Prim.Native.Char.{Char, code}
use Prim.Native.Nat.{ℕ}
use Prim.Native.String.append.{nil, cons}
use native.Mathlib.Omega.{arith}
use Prim.Native.String.{String, ◌++◌ as append}
use mathlib.Core.Path.{◌≡◌, refl, sym, ap, ◌∙◌}
use text.Mathlib.TextEquality.{Char-path}
use mathlib.Core.Bool.{Bool, true, false}
use mathlib.Core.Logic.{◌↔◌, inl, inr}
use mathlib.Core.Option.{none, some}
use mikrolb.Common.Tests.{◌==◌, Bool-cases, Option-cases, some-injective}
use mikrolb.Common.Text.{
  is_space, trim_left, trimmed_cons, trim_right, trim_space, cut_at, strip_prefix, has_prefix,
  contains_text,
}

append_nil : (t : String) → append String.[] t ≡ t
append_nil t = λ i. nil t i

append_cons : (c : Char) (s t : String) → append (String.◌∷◌ c s) t ≡ String.◌∷◌ c (append s t)
append_cons c s t = λ i. cons c s t i

-- No character of the text passes the test.
abbrev pub Lacks : (Char → Bool) → String → Type 0
Lacks test String.[] = Unit
Lacks test (String.◌∷◌ c s) = (test c ≡ false) × Lacks test s

abbrev pub is_char : ℕ → Char → Bool
is_char k c = code c == k

pub Lacks-append :
    (test : Char → Bool) (s t : String) → Lacks test s → Lacks test t → Lacks test (append s t)
Lacks-append test String.[] t h k = rw (append_nil t) k
Lacks-append test (String.◌∷◌ c s) t h k = rw (append_cons c s t) (h.0, Lacks-append test s t h.1 k)

trim_left-Lacks : (s : String) → Lacks is_space s → trim_left s ≡ s
unfolding trim_left
trim_left-Lacks String.[] h = refl
trim_left-Lacks (String.◌∷◌ c s) h = rw (h.0, trim_left) refl

trim_right-Lacks : (s : String) → Lacks is_space s → trim_right s ≡ s
unfolding trim_right trimmed_cons
trim_right-Lacks String.[] h = refl
trim_right-Lacks (String.◌∷◌ c String.[]) h = rw (h.0, trimmed_cons) refl
trim_right-Lacks (String.◌∷◌ c (String.◌∷◌ d s)) h =
    ap (trimmed_cons c) (trim_right-Lacks (String.◌∷◌ d s) h.1)

-- A text without a space is left as it is.
pub trim_space-Lacks : (s : String) → Lacks is_space s → trim_space s ≡ s
unfolding trim_space
trim_space-Lacks s h = ap trim_right (trim_left-Lacks s h) ∙ trim_right-Lacks s h

-- A text without the separator is not cut.
pub cut_at-Lacks : (sep : ℕ) (s : String) → Lacks (is_char sep) s → cut_at sep s ≡ none
unfolding cut_at
cut_at-Lacks sep String.[] h = refl
cut_at-Lacks sep (String.◌∷◌ c s) h = rw (h.0, cut_at) (rw (cut_at-Lacks sep s h.1, cut_at) refl)

-- A text is cut at the first separator.
pub cut_at-append :
    (sep : ℕ) (s : String) (c : Char) (t : String)
    → is_char sep c ≡ true
    → Lacks (is_char sep) s
    → cut_at sep (append s (String.◌∷◌ c t)) ≡ some (s, t)
unfolding cut_at
cut_at-append sep String.[] c t e h = rw (append_nil (String.◌∷◌ c t)) (rw (e, cut_at) refl)
cut_at-append sep (String.◌∷◌ d s) c t e h =
    rw (append_cons d s (String.◌∷◌ c t))
      (rw (h.0, cut_at) (rw (cut_at-append sep s c t e h.1, cut_at) refl))

-- A text without the character `!` does not begin with it.
pub strip_prefix-Lacks : (s : String) → Lacks (is_char b'!') s → strip_prefix "!" s ≡ none
unfolding strip_prefix
strip_prefix-Lacks String.[] h = refl
strip_prefix-Lacks (String.◌∷◌ c s) h = ground (arith, h.0)

pub append_one : (c : Char) (t : String) → append (String.◌∷◌ c String.[]) t ≡ String.◌∷◌ c t
append_one c t = append_cons c String.[] t ∙ ap (λ s. String.◌∷◌ c s) (append_nil t)

-- The text begins with the prefix.
abbrev pub Begins : String → String → Type 0
Begins prefix s = (rest : String) × (s ≡ append prefix rest)

-- The text has the part somewhere in it.
abbrev pub Contains : String → String → Type 0
Contains part s = (before : String) × (after : String) × (s ≡ append before (append part after))

strip_prefix-rest : (p s rest : String) → strip_prefix p s ≡ some rest → s ≡ append p rest
unfolding strip_prefix
strip_prefix-rest String.[] s rest = λ h. some-injective h ∙ sym (append_nil rest)
strip_prefix-rest (String.◌∷◌ p ps) String.[] rest = λ h. absurd (cc)
strip_prefix-rest (String.◌∷◌ p ps) (String.◌∷◌ c s) rest = elim (Bool-cases (code p == code c)) [
  | inr other ↦ rw (other, strip_prefix) (λ h. absurd (cc))
  | inl same ↦
      rw (same, strip_prefix)
        (λ h.
          rw (append_cons p ps rest, Char-path p c (ground (arith, same)))
            (ap (λ t. String.◌∷◌ c t) (strip_prefix-rest ps s rest h)))
]

strip_prefix-append : (p rest : String) → strip_prefix p (append p rest) ≡ some rest
unfolding strip_prefix
strip_prefix-append String.[] rest = rw (append_nil rest) refl
strip_prefix-append (String.◌∷◌ p ps) rest =
    let same : code p == code p ≡ true = ground arith in
    rw (append_cons p ps rest) (rw (same, strip_prefix) (strip_prefix-append ps rest))

pub has_prefix-Begins : (s p : String) → (has_prefix s p ≡ true) ↔ Begins p s
unfolding has_prefix
has_prefix-Begins s p = (
  elim (Option-cases (strip_prefix p s)) [
    | inl missing ↦ rw (missing, has_prefix) (λ h. absurd (cc))
    | inr (rest, there) ↦ λ h. (rest, strip_prefix-rest p s rest there)
  ],
  λ (rest, e). rw (e) (rw (strip_prefix-append p rest, has_prefix) refl),
)

pub contains_text-Contains : (s part : String) → contains_text s part ≡ true → Contains part s
unfolding contains_text
contains_text-Contains String.[] part = λ h.
    let (rest, e) = (has_prefix-Begins String.[] part).0 h in
    (String.[], rest, e ∙ sym (append_nil (append part rest)))
contains_text-Contains (String.◌∷◌ c s) part =
    elim (Bool-cases (has_prefix (String.◌∷◌ c s) part)) [
      | inl here ↦ λ h.
          let (rest, e) = (has_prefix-Begins (String.◌∷◌ c s) part).0 here in
          (String.[], rest, e ∙ sym (append_nil (append part rest)))
      | inr other ↦
          rw (other, contains_text)
            (λ h.
              let (before, after, e) = contains_text-Contains s part h in
              (
                String.◌∷◌ c before,
                after,
                ap (λ t. String.◌∷◌ c t) e ∙ sym (append_cons c before (append part after)),
              ))
    ]
