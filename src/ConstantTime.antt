-- ===== src/ConstantTime.antt =====
-- The constant-time comparisons: `ct_eq` of crates/hub/src/relay.rs and of
-- crates/hub/src/vpnrelay.rs, and `ct_eq_str` of crates/hub/src/main.rs.
mod Examples
use Prim.Native.Nat.{max, digits, differ, bit_or, bit_xor, bit_or-bitwise, bit_xor-bitwise}
use haive_control.Prelude.{
  ℕ, zero, suc, ◌/◌, ◌%◌, ◌≤◌, ◌<◌, ◌≡◌, ◌↔◌, refl, ap, Bool, true, ◌&&◌, List, [], ◌∷◌, arith,
  length, ◌==◌, nat_eq,
}

-- The loop of both: it looks at every byte, whatever it has found.
diff_bytes : ℕ → List ℕ → List ℕ → ℕ
diff_bytes d [] b = d
diff_bytes d (x ∷ a) [] = d
diff_bytes d (x ∷ a) (y ∷ b) = diff_bytes (bit_or d (bit_xor x y)) a b

unfoldable pub ct_eq : List ℕ → List ℕ → Bool
unfolding diff_bytes
ct_eq a b = length a == length b && diff_bytes 0 a b == 0

or_digits-zero : (n a b : ℕ) → a ≤ n → (digits (λ y. y) max n a b ≡ 0) ↔ ((a ≡ 0) × (b ≡ 0))
or_digits-zero zero a b h = ((λ e. (omega arith, e)), λ e. e.1)
or_digits-zero (suc n) zero b h = ((λ e. (refl, e)), λ e. e.1)
or_digits-zero (suc n) (suc a) b h =
    let ih = or_digits-zero n (suc a / 2) (b / 2) (omega arith) in
    ((λ e. let f = ih.0 (omega arith) in absurd (omega arith)), λ e. absurd (omega arith))

differ-zero : (x y : ℕ) → x < 2 → y < 2 → (differ x y ≡ 0) ↔ (x ≡ y)
differ-zero zero y p q = ((λ e. omega arith), λ e. omega arith)
differ-zero (suc x) zero p q = ((λ e. absurd (omega arith)), λ e. absurd (omega arith))
differ-zero (suc zero) (suc zero) p q = ((λ e. refl), λ e. refl)
differ-zero (suc zero) (suc (suc y)) p q = absurd (omega arith)
differ-zero (suc (suc x)) (suc y) p q = absurd (omega arith)

xor_digits-zero : (n a b : ℕ) → a ≤ n → (digits (λ y. y) differ n a b ≡ 0) ↔ (a ≡ b)
xor_digits-zero zero a b h = ((λ e. omega arith), λ e. omega arith)
xor_digits-zero (suc n) zero b h = ((λ e. omega arith), λ e. omega arith)
xor_digits-zero (suc n) (suc a) b h =
    let ih = xor_digits-zero n (suc a / 2) (b / 2) (omega arith) in
    let low = differ-zero (suc a % 2) (b % 2) (omega arith) (omega arith) in
    (
      (λ e. let f = ih.0 (omega arith) in let g = low.0 (omega arith) in omega arith),
      λ e. let f = ih.1 (omega arith) in let g = low.1 (omega arith) in omega arith,
    )

pub bit_or-zero_iff : (a b : ℕ) → (bit_or a b ≡ 0) ↔ ((a ≡ 0) × (b ≡ 0))
bit_or-zero_iff a b = rw bit_or-bitwise (or_digits-zero a a b (omega arith))

pub bit_xor-zero_iff : (a b : ℕ) → (bit_xor a b ≡ 0) ↔ (a ≡ b)
bit_xor-zero_iff a b = rw bit_xor-bitwise (xor_digits-zero a a b (omega arith))

diff_bytes-zero :
    (d : ℕ) (a b : List ℕ) → length a ≡ length b → (diff_bytes d a b ≡ 0) ↔ ((d ≡ 0) × (a ≡ b))
unfolding diff_bytes
diff_bytes-zero d [] [] h = ((λ e. (e, refl)), λ e. e.0)
diff_bytes-zero d [] (y ∷ b) h = absurd (omega arith)
diff_bytes-zero d (x ∷ a) [] h = absurd (omega arith)
diff_bytes-zero d (x ∷ a) (y ∷ b) h =
    let rest = diff_bytes-zero (bit_or d (bit_xor x y)) a b (omega arith) in
    ground (arith, rest, bit_or-zero_iff d (bit_xor x y), bit_xor-zero_iff x y)

-- The comparison that looks at every byte answers `true` exactly for equal texts.
pub ct_eq_iff : (a b : List ℕ) → (ct_eq a b ≡ true) ↔ (a ≡ b)
unfolding ct_eq
ct_eq_iff a b = (eq, ne)
  where
    eq : ct_eq a b ≡ true → a ≡ b
    eq h =
        let l : length a ≡ length b = ground arith in ((diff_bytes-zero 0 a b l).0 (ground arith)).1

    ne : a ≡ b → ct_eq a b ≡ true
    ne e =
        let l : length a ≡ length b = ap length e in
        ground (arith, (diff_bytes-zero 0 a b l).1 (refl, e))
