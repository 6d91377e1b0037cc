-- ===== src/Strconv/RoundTrip.antt =====
-- A number is read back from its decimal print.
use Prim.Native.Char.{code}
use Prim.Native.String.{◌∷◌}
use slinky_on_openshift.Prelude.{
  ℕ, zero, suc, ◌+◌, ◌-◌, ◌*◌, ◌/◌, ◌%◌, ◌<◌, ◌≡◌, refl, ap, ◌∙◌, inl, inr, false, some, String,
  arith, ltb, Bool-cases,
}
use slinky_on_openshift.Strconv.{read_digits, parse_digits, digit, write_digits, is_empty, itoa}
use slinky_on_openshift.Prelude.Int.{pos}

code-digit : (d : ℕ) → d < 10 → code (digit d) ≡ 48 + d
unfolding digit
code-digit zero h = refl
code-digit (suc zero) h = refl
code-digit (suc (suc zero)) h = refl
code-digit (suc (suc (suc zero))) h = refl
code-digit (suc (suc (suc (suc zero)))) h = refl
code-digit (suc (suc (suc (suc (suc zero))))) h = refl
code-digit (suc (suc (suc (suc (suc (suc zero)))))) h = refl
code-digit (suc (suc (suc (suc (suc (suc (suc zero))))))) h = refl
code-digit (suc (suc (suc (suc (suc (suc (suc (suc zero)))))))) h = refl
code-digit (suc (suc (suc (suc (suc (suc (suc (suc (suc zero))))))))) h = refl
code-digit (suc (suc (suc (suc (suc (suc (suc (suc (suc (suc n)))))))))) h = absurd (omega arith)

read-digit :
    (m d : ℕ) (out : String) → d < 10 → read_digits m (digit d ∷ out) ≡ read_digits (m * 10 + d) out
unfolding read_digits
read-digit m d out h =
    let e : 48 + d - 48 ≡ d = omega arith in rw (code-digit d h) (rw e (ground arith))

read-write :
    (fuel n : ℕ) (out : String)
    → n < fuel
    → read_digits 0 (write_digits fuel n out) ≡ read_digits n out
unfolding write_digits
read-write zero n out h = elim h [ ]
read-write (suc fuel) n out h = elim (Bool-cases (ltb n 10)) [
  | inl small ↦
      let e : 0 * 10 + n % 10 ≡ n = ground arith in
      rw small (read-digit 0 (n % 10) out (omega arith) ∙ ap (λ m. read_digits m out) e)
  | inr big ↦
      let e : n / 10 * 10 + n % 10 ≡ n = omega arith in
      rw big (
        read-write fuel (n / 10) (digit (n % 10) ∷ out) (ground arith)
        ∙ read-digit (n / 10) (n % 10) out (omega arith)
        ∙ ap (λ m. read_digits m out) e)
]

write-ne-empty : (fuel n : ℕ) (out : String) → n < fuel → is_empty (write_digits fuel n out) ≡ false
unfolding write_digits
write-ne-empty zero n out h = elim h [ ]
write-ne-empty (suc fuel) n out h =
    ground (arith, write-ne-empty fuel (n / 10) (digit (n % 10) ∷ out))

-- The decimal print of a number parses as that number.
pub parse_digits-itoa : (n : ℕ) → parse_digits (itoa (pos n)) ≡ some n
unfolding parse_digits itoa
parse_digits-itoa n =
    rw (write-ne-empty (suc n) n "" (omega arith)) (read-write (suc n) n "" (omega arith) ∙ refl)
