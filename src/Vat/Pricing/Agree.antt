-- ===== src/Vat/Pricing/Agree.antt =====
-- What the two ways to price promise of one another.
use nexora_ai.Prelude.{ℕ, zero, suc, ◌+◌, ◌*◌, ◌/◌, ◌≤◌, ◌<◌, ◌≡◌, refl, sym, subst, arith}
use native.Mathlib.Nat.{mul-div-le, lt-mul-div-succ}
use nexora_ai.Prelude.Int.{ℤ, pos, ◌+ℤ◌, ◌-ℤ◌, ◌*ℤ◌, ◌≤ℤ◌, int_laws}
use nexora_ai.Decimal.{half_up, round_half_up, to_money, money_unit}
use nexora_ai.Session.{ok}
use nexora_ai.Vat.Pricing.{Breakdown, one, charge, back_out, inclusive}

half_up_bounds :
    (d n : ℕ) → 0 < d → (half_up d n * d ≤ n + d / 2) × (n + d / 2 < half_up d n * d + d)
unfolding half_up
half_up_bounds d n p =
    (grind (arith, mul-div-le (n + d / 2) d), grind (arith, lt-mul-div-succ (n + d / 2) p))

-- For a rate of at most one: the net is at most the gross, and the VAT that is left over and the
-- VAT charged on the net differ by one unit at most.
one_unit :
    (g r n w : ℕ)
    → r ≤ one
    → n * (one + r) ≤ g * one + (one + r) / 2
    → g * one + (one + r) / 2 < n * (one + r) + (one + r)
    → w * one ≤ n * r + one / 2
    → n * r + one / 2 < w * one + one
    → (n ≤ g) × (g ≤ n + w + 1) × (n + w ≤ g + 1)
one_unit g r zero w small a b c d = (omega arith, omega arith, omega arith)
one_unit g r (suc n) w small a b c d = (omega arith, omega arith, omega arith)

-- A breakdown of a price that contains its VAT, at a rate: the parts add up to the price, the net
-- lies between zero and the price, and the VAT is that of the net to within one unit.
pub record Agrees (price rate : ℤ) (b : Breakdown) : Type 0 where
  pub whole : b.gross ≡ to_money price
  pub parts : b.net +ℤ b.vat ≡ b.gross
  pub nonnegative : pos 0 ≤ℤ b.net
  pub within : b.net ≤ℤ b.gross
  pub vat_at_most : b.vat ≤ℤ charge b.net rate +ℤ pos 1
  pub vat_at_least : charge b.net rate ≤ℤ b.vat +ℤ pos 1

nat_prices :
    (g r : ℕ)
    → (back_out (pos g) (pos r) ≡ pos (half_up (one + r) (g * one)))
      × (charge (pos (half_up (one + r) (g * one))) (pos r)
          ≡ pos (half_up one (half_up (one + r) (g * one) * r)))
unfolding back_out charge ◌*ℤ◌ round_half_up
nat_prices g r = (ground arith, ground arith)

agrees :
    (price : ℤ) (g r : ℕ)
    → r ≤ one
    → to_money price ≡ pos g
    → Agrees price (pos r) (record {
      net = back_out (pos g) (pos r);
      vat = pos g -ℤ back_out (pos g) (pos r);
      gross = pos g;
    })
agrees price g r small e =
    let n = half_up (one + r) (g * one) in
    let w = half_up one (n * r) in
    let (a, b) = half_up_bounds (one + r) (g * one) (omega arith) in
    let (c, d) = half_up_bounds one (n * r) (omega arith) in
    let (low, most, least) = one_unit g r n w small a b c d in
    let (is_net, is_charge) = nat_prices g r in
    subst (λ x. Agrees price (pos r) (record { net = x; vat = pos g -ℤ x; gross = pos g }))
      (sym is_net)
      (record {
        whole = sym e;
        parts = omega int_laws;
        nonnegative = omega arith;
        within = omega (arith, low);
        vat_at_most =
            subst (λ x. pos g -ℤ pos n ≤ℤ x +ℤ pos 1) (sym is_charge) (omega (int_laws, low, most));
        vat_at_least =
            subst (λ x. x ≤ℤ pos g -ℤ pos n +ℤ pos 1) (sym is_charge)
              (omega (int_laws, low, least));
      })

-- For every price that is not negative and every rate between zero and one, `inclusive` returns a
-- breakdown whose net and VAT add up to the price as stored, whose net lies between zero and that
-- price, and whose VAT is what `exclusive` would charge on the net, to within one unit of the
-- fourth decimal place.
pub inclusive-Agrees :
    (price r : ℕ)
    → r ≤ one
    → (b : Breakdown) × (inclusive (pos price) (pos r) ≡ ok b) × Agrees (pos price) (pos r) b
unfolding inclusive to_money
inclusive-Agrees price r small =
    let g = half_up money_unit price in
    (
      record {
        net = back_out (pos g) (pos r);
        vat = pos g -ℤ back_out (pos g) (pos r);
        gross = pos g;
      },
      ground arith,
      agrees (pos price) g r small refl,
    )
