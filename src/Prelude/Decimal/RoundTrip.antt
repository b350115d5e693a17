-- ===== src/Prelude/Decimal/RoundTrip.antt =====
-- The decimal text of a `u64` is read back as that number.
use Prim.Native.Nat.{ℕ, zero, suc, ◌+◌, ◌-◌, ◌*◌, ◌%◌, ◌/◌, ◌≤◌, ◌<◌}
use Prim.Native.Char.{code}
use Prim.Native.String.{String}
use jsonrpseex.Prelude.Tests.{ltb, if◌then◌else◌, Bool-cases}
use jsonrpseex.Prelude.Lists.{codes}
use jsonrpseex.Prelude.Decimal.{
  u64_mod, digit_char, emit, show, scan, parse_digits, parse_bytes, parse,
}
use mathlib.Core.Path.{◌≡◌, refl, sym, subst}
use mathlib.Core.Logic.{inl, inr}
use mathlib.Core.Option.{some}
use mathlib.Core.List.{List, [], ◌∷◌}
use native.Mathlib.Omega.{arith}

digit_code : (d : ℕ) → d < 10 → code (digit_char d) ≡ 48 + d
unfolding digit_char
digit_code zero h = refl
digit_code (suc zero) h = refl
digit_code (suc (suc zero)) h = refl
digit_code (suc (suc (suc zero))) h = refl
digit_code (suc (suc (suc (suc zero)))) h = refl
digit_code (suc (suc (suc (suc (suc zero))))) h = refl
digit_code (suc (suc (suc (suc (suc (suc zero)))))) h = refl
digit_code (suc (suc (suc (suc (suc (suc (suc zero))))))) h = refl
digit_code (suc (suc (suc (suc (suc (suc (suc (suc zero)))))))) h = refl
digit_code (suc (suc (suc (suc (suc (suc (suc (suc (suc zero))))))))) h = refl
digit_code (suc (suc (suc (suc (suc (suc (suc (suc (suc (suc d)))))))))) h = absurd (omega arith)

scan_digit :
    (d acc : ℕ) (s : List ℕ)
    → d < 10
    → acc * 10 + d < u64_mod
    → scan (code (digit_char d) ∷ s) acc ≡ scan s (acc * 10 + d)
unfolding scan
scan_digit d acc s h b =
    let e = digit_code d h in
    let p : code (digit_char d) - 48 ≡ d = omega (arith, e) in ground (arith, e, p)

scan-emit :
    (fuel n : ℕ) (out : String)
    → n < fuel
    → n < u64_mod
    → scan (codes (emit fuel n out)) 0 ≡ scan (codes out) n
unfolding emit
scan-emit zero n out h b = absurd (omega arith)
scan-emit (suc fuel) n out h b = elim (Bool-cases (ltb n 10)) [
  | inl t ↦
      let r : n % 10 ≡ n = ground (arith, t) in
      ground (arith, t, r, scan_digit (n % 10) 0 (codes out) (omega arith) (omega arith))
  | inr f ↦
      let big : 10 ≤ n = ground (arith, f) in
      let r : (n / 10) * 10 + n % 10 ≡ n = omega arith in
      let next = String.◌∷◌ (digit_char (n % 10)) out in
      let ih = scan-emit fuel (n / 10) next (omega arith) (omega arith) in
      ground (arith, f, r, ih, scan_digit (n % 10) (n / 10) (codes out) (omega arith) (omega arith))
]

abbrev Starts : List ℕ → Type 0
Starts l = (c : ℕ) × (s : List ℕ) × (l ≡ c ∷ s) × (48 ≤ c)

emit-Starts : (fuel n : ℕ) (out : String) → n < fuel → Starts (codes (emit fuel n out))
unfolding emit
emit-Starts zero n out h = absurd (omega arith)
emit-Starts (suc fuel) n out h =
    let next = String.◌∷◌ (digit_char (n % 10)) out in
    let d : Starts (codes next) = (
      code (digit_char (n % 10)),
      codes out,
      refl,
      omega (arith, digit_code (n % 10) (omega arith)),
    ) in
    elim (Bool-cases (ltb n 10)) [
      | inl t ↦ subst (λ b. Starts (codes (if b then next else emit fuel (n / 10) next))) (sym t) d
      | inr f ↦
          subst (λ b. Starts (codes (if b then next else emit fuel (n / 10) next))) (sym f)
            (emit-Starts fuel (n / 10) next (ground (arith, f)))
    ]

parse_bytes_digits : (l : List ℕ) (n : ℕ) → Starts l → scan l 0 ≡ some n → parse_bytes l ≡ some n
unfolding parse_bytes parse_digits
parse_bytes_digits [] n (c, s, e, h) p = absurd (cc e)
parse_bytes_digits (b ∷ l) n (c, s, e, h) p = ground (arith, e)

pub parse-show : (n : ℕ) → n < u64_mod → parse (show n) ≡ some n
unfolding parse show emit
parse-show n h =
    parse_bytes_digits (codes (show n)) n (emit-Starts (suc n) n String.[] (omega arith))
      (scan-emit (suc n) n String.[] (omega arith) h)
