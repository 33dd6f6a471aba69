-- ===== src/Carry/Products.antt =====
-- Products of the signed integers.
use quantitative_trading.Prelude.{◌≡◌, refl, sym, ap, ◌∙◌, ℕ, ◌+◌, ◌*◌, arith}
use quantitative_trading.Prelude.Int.{
  ℤ, pos, negsuc, pos_part, neg_part, ◌+ℤ◌, ◌-ℤ◌, ◌*ℤ◌, int_laws, eq_of_parts, sub_ℕ, +ℤ_parts,
  -ℤ_parts,
}

-- the parts of a product, up to what both have in common
pub *ℤ_parts :
    (a b : ℤ)
    → pos_part (a *ℤ b) + (pos_part a * neg_part b + neg_part a * pos_part b)
      ≡ neg_part (a *ℤ b) + (pos_part a * pos_part b + neg_part a * neg_part b)
unfolding ◌*ℤ◌
*ℤ_parts a b =
    parts (pos_part a * pos_part b + neg_part a * neg_part b)
      (pos_part a * neg_part b + neg_part a * pos_part b)
  where
    parts : (m n : ℕ) → pos_part (sub_ℕ m n) + n ≡ neg_part (sub_ℕ m n) + m
    parts m n = ground arith

distrib_parts :
    (ap an bp bn cp cn sp sn : ℕ)
    → sp + an + bn ≡ sn + ap + bp
    → (sp * cp + sn * cn) + (ap * cn + an * cp) + (bp * cn + bn * cp)
      ≡ (sp * cn + sn * cp) + (ap * cp + an * cn) + (bp * cp + bn * cn)
distrib_parts ap an bp bn cp cn sp sn h = omega (arith, times cp h, times cn h)
  where
    times : (k : ℕ) {m n : ℕ} → m ≡ n → m * k ≡ n * k
    times k e = rw e refl

pub add_times : (a b c : ℤ) → (a +ℤ b) *ℤ c ≡ a *ℤ c +ℤ b *ℤ c
add_times a b c =
    let split =
      distrib_parts (pos_part a) (neg_part a) (pos_part b) (neg_part b) (pos_part c) (neg_part c)
        (pos_part (a +ℤ b)) (neg_part (a +ℤ b)) (+ℤ_parts a b) in
    eq_of_parts ((a +ℤ b) *ℤ c) (a *ℤ c +ℤ b *ℤ c) (
      omega
        (arith, split, *ℤ_parts (a +ℤ b) c, *ℤ_parts a c, *ℤ_parts b c, +ℤ_parts (a *ℤ c) (b *ℤ c)))

pub zero_times : (c : ℤ) → pos 0 *ℤ c ≡ pos 0
unfolding ◌*ℤ◌
zero_times (pos n) = ground arith
zero_times (negsuc n) = ground arith

pub neg_times : (a c : ℤ) → (pos 0 -ℤ a) *ℤ c ≡ pos 0 -ℤ a *ℤ c
neg_times a c =
    let sum : (pos 0 -ℤ a) *ℤ c +ℤ a *ℤ c ≡ pos 0 =
      sym (add_times (pos 0 -ℤ a) a c) ∙ ap (λ z. z *ℤ c) (cancel a) ∙ zero_times c in
    flip ((pos 0 -ℤ a) *ℤ c) (a *ℤ c) sum
  where
    cancel : (a : ℤ) → (pos 0 -ℤ a) +ℤ a ≡ pos 0
    cancel a = omega int_laws

    flip : (x y : ℤ) → x +ℤ y ≡ pos 0 → x ≡ pos 0 -ℤ y
    flip x y h = ground (arith, +ℤ_parts x y, -ℤ_parts (pos 0) y, eq_of_parts x (pos 0 -ℤ y))
