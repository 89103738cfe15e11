-- ===== src/Vat/Grouping.antt =====
-- `group_taxable_lines`: the lines of a document, summed for each rate.
use nexora_ai.Prelude.{
  ◌≡◌, refl, sym, ap, ◌∙◌, Bool, true, false, ◌||◌, not, List, [], ◌∷◌, arith, All, any_of,
  select_where, if◌then◌else◌, Bool-cases, inl, inr,
}
use nexora_ai.Prelude.Int.{
  ℤ, pos, ◌+ℤ◌, eq_ℤ, total, int_laws, eq_ℤ→eq, eq_ℤ_refl, zero_+ℤ, +ℤ_zero,
}

-- A rate with a net and a tax: a line of a document, or what the lines of the rate come to.
pub record RateLine : Type 0 where
  pub rate : ℤ
  pub net : ℤ
  pub tax : ℤ

abbrev added : RateLine → RateLine → RateLine
added l b = record b { net = b.net +ℤ l.net; tax = b.tax +ℤ l.tax }

-- `grouped.setdefault(rate, [ZERO, ZERO])`, and the line added to its bucket.
unfoldable pub add_line : RateLine → List RateLine → List RateLine
add_line l [] = added l (record { rate = l.rate; net = pos 0; tax = pos 0 }) ∷ []
add_line l (b ∷ bs) =
    let rest = add_line l bs in if eq_ℤ l.rate b.rate then added l b ∷ bs else b ∷ rest

unfoldable pub grouped : List RateLine → List RateLine → List RateLine
grouped bs [] = bs
grouped bs (l ∷ ls) = grouped (add_line l bs) ls

abbrev pub is_nonzero : RateLine → Bool
is_nonzero b = not (eq_ℤ b.net (pos 0)) || not (eq_ℤ b.tax (pos 0))

unfoldable pub group_taxable_lines : List RateLine → List RateLine
unfolding grouped add_line
group_taxable_lines lines = select_where is_nonzero (grouped [] lines)

-- What the lines of a rate come to in one column.
abbrev pub at_rate : (RateLine → ℤ) → ℤ → List RateLine → ℤ
at_rate f rate ls = total (λ l. if eq_ℤ rate l.rate then f l else pos 0) ls

abbrev pub DistinctRates : List RateLine → Type 0
DistinctRates [] = Unit
DistinctRates (b ∷ bs) = (any_of (λ c. eq_ℤ b.rate c.rate) bs ≡ false) × DistinctRates bs

-- One column, the net or the tax.
module _ (f : RateLine → ℤ) (adds : (l b : RateLine) → f (added l b) ≡ f b +ℤ f l)
    (empty : (r : ℤ) → f (record { rate = r; net = pos 0; tax = pos 0 }) ≡ pos 0) where
  together :
      (c : Bool) (x y z : ℤ)
      → (if c then x +ℤ y else pos 0) +ℤ z
        ≡ (if c then y else pos 0) +ℤ ((if c then x else pos 0) +ℤ z)
  together true x y z = omega int_laws
  together false x y z = omega int_laws

  exchange : (x y z : ℤ) → x +ℤ (y +ℤ z) ≡ y +ℤ (x +ℤ z)
  exchange x y z = omega int_laws

  at_rate-add_line :
      (r : ℤ) (l : RateLine) (bs : List RateLine)
      → at_rate f r (add_line l bs) ≡ at_rate f r (l ∷ bs)
  unfolding add_line
  at_rate-add_line r l [] =
      ap (λ x. (if eq_ℤ r l.rate then x else pos 0) +ℤ pos 0)
        (adds l (record { rate = l.rate; net = pos 0; tax = pos 0 })
          ∙ ap (λ x. x +ℤ f l) (empty l.rate)
          ∙ zero_+ℤ (f l))
  at_rate-add_line r l (b ∷ bs) = elim (Bool-cases (eq_ℤ l.rate b.rate)) [
    | inl e ↦
        let same = eq_ℤ→eq l.rate b.rate e in
        rw e (
          ap (λ x. (if eq_ℤ r b.rate then x else pos 0) +ℤ at_rate f r bs) (adds l b)
          ∙ together (eq_ℤ r b.rate) (f b) (f l) (at_rate f r bs)
          ∙ ap
              (λ y.
                (if eq_ℤ r y then f l else pos 0)
                +ℤ ((if eq_ℤ r b.rate then f b else pos 0) +ℤ at_rate f r bs))
              (sym same))
    | inr e ↦ rw e (
        ap (λ x. (if eq_ℤ r b.rate then f b else pos 0) +ℤ x) (at_rate-add_line r l bs)
        ∙ exchange (if eq_ℤ r b.rate then f b else pos 0) (if eq_ℤ r l.rate then f l else pos 0)
            (at_rate f r bs))
  ]

  at_rate-grouped :
      (r : ℤ) (bs ls : List RateLine)
      → at_rate f r (grouped bs ls) ≡ at_rate f r bs +ℤ at_rate f r ls
  unfolding grouped
  at_rate-grouped r bs [] = sym (+ℤ_zero (at_rate f r bs))
  at_rate-grouped r bs (l ∷ ls) =
      at_rate-grouped r (add_line l bs) ls
      ∙ ap (λ x. x +ℤ at_rate f r ls) (at_rate-add_line r l bs)
      ∙ regroup (if eq_ℤ r l.rate then f l else pos 0) (at_rate f r bs) (at_rate f r ls)
    where
      regroup : (x y z : ℤ) → x +ℤ y +ℤ z ≡ y +ℤ (x +ℤ z)
      regroup x y z = omega int_laws

  -- A bucket of zeros counts for nothing.
  at_rate-select :
      (r : ℤ) (bs : List RateLine)
      → ((b : RateLine) → is_nonzero b ≡ false → f b ≡ pos 0)
      → at_rate f r (select_where is_nonzero bs) ≡ at_rate f r bs
  at_rate-select r [] z = refl
  at_rate-select r (b ∷ bs) z = elim (Bool-cases (is_nonzero b)) [
    | inl e ↦ rw e (ap (λ x. (if eq_ℤ r b.rate then f b else pos 0) +ℤ x) (at_rate-select r bs z))
    | inr e ↦ rw e (
        at_rate-select r bs z
        ∙ sym (zero_+ℤ (at_rate f r bs))
        ∙ ap (λ x. x +ℤ at_rate f r bs) (nothing (eq_ℤ r b.rate) (z b e)))
  ]
    where
      nothing : (c : Bool) → f b ≡ pos 0 → pos 0 ≡ (if c then f b else pos 0)
      nothing true e = sym e
      nothing false e = refl

nonzero_or : (b : RateLine) → is_nonzero b ≡ false → (b.net ≡ pos 0) × (b.tax ≡ pos 0)
nonzero_or b e =
    (eq_ℤ→eq b.net (pos 0) (ground (arith, e)), eq_ℤ→eq b.tax (pos 0) (ground (arith, e)))

no_rate-add_line :
    (r : ℤ) (l : RateLine) (bs : List RateLine)
    → eq_ℤ r l.rate ≡ false
    → any_of (λ c. eq_ℤ r c.rate) bs ≡ false
    → any_of (λ c. eq_ℤ r c.rate) (add_line l bs) ≡ false
unfolding add_line
no_rate-add_line r l [] n h = ground (arith, n)
no_rate-add_line r l (b ∷ bs) n h = elim (Bool-cases (eq_ℤ l.rate b.rate)) [
  | inl e ↦ rw e h
  | inr e ↦ rw e (ground (arith, h, no_rate-add_line r l bs n))
]

add_line-DistinctRates :
    (l : RateLine) (bs : List RateLine) → DistinctRates bs → DistinctRates (add_line l bs)
unfolding add_line
add_line-DistinctRates l [] h = (refl, tt)
add_line-DistinctRates l (b ∷ bs) h = elim (Bool-cases (eq_ℤ l.rate b.rate)) [
  | inl e ↦ rw e h
  | inr e ↦ rw e (
    no_rate-add_line b.rate l bs (eq_ℤ_other l.rate b.rate e) h.0,
    add_line-DistinctRates l bs h.1,
  )
]
  where
    eq_ℤ_other : (x y : ℤ) → eq_ℤ x y ≡ false → eq_ℤ y x ≡ false
    eq_ℤ_other x y n = elim (Bool-cases (eq_ℤ y x)) [
      | inl e ↦ cc (n, eq_ℤ_refl x, eq_ℤ→eq y x e)
      | inr e ↦ e
    ]

grouped-DistinctRates : (bs ls : List RateLine) → DistinctRates bs → DistinctRates (grouped bs ls)
unfolding grouped
grouped-DistinctRates bs [] h = h
grouped-DistinctRates bs (l ∷ ls) h =
    grouped-DistinctRates (add_line l bs) ls (add_line-DistinctRates l bs h)

no_rate-select :
    (r : ℤ) (bs : List RateLine)
    → any_of (λ c. eq_ℤ r c.rate) bs ≡ false
    → any_of (λ c. eq_ℤ r c.rate) (select_where is_nonzero bs) ≡ false
no_rate-select r [] h = h
no_rate-select r (b ∷ bs) h = ground (arith, no_rate-select r bs)

select-DistinctRates :
    (bs : List RateLine) → DistinctRates bs → DistinctRates (select_where is_nonzero bs)
select-DistinctRates [] h = tt
select-DistinctRates (b ∷ bs) h = elim (Bool-cases (is_nonzero b)) [
  | inl e ↦ rw e (no_rate-select b.rate bs h.0, select-DistinctRates bs h.1)
  | inr e ↦ rw e (select-DistinctRates bs h.1)
]

select-All : (bs : List RateLine) → All (λ b. is_nonzero b ≡ true) (select_where is_nonzero bs)
select-All [] = tt
select-All (b ∷ bs) = elim (Bool-cases (is_nonzero b)) [
  | inl e ↦ rw e (e, select-All bs)
  | inr e ↦ rw e (select-All bs)
]

-- What the VAT summary of a document is, given the lines of the document.
pub record Summarises (ls bs : List RateLine) : Type 0 where
  pub once : DistinctRates bs
  pub something : All (λ b. is_nonzero b ≡ true) bs
  pub nets : (r : ℤ) → at_rate (λ l. l.net) r bs ≡ at_rate (λ l. l.net) r ls
  pub taxes : (r : ℤ) → at_rate (λ l. l.tax) r bs ≡ at_rate (λ l. l.tax) r ls

-- Whatever the lines: the summary has a rate once at most and no bucket of zeros, and its net and
-- its tax at every rate are those of the lines of that rate together.
pub group_taxable_lines-Summarises : (ls : List RateLine) → Summarises ls (group_taxable_lines ls)
unfolding group_taxable_lines
group_taxable_lines-Summarises ls =
    let bs = grouped [] ls in
    let column : (f : RateLine → ℤ)
        → ((l b : RateLine) → f (added l b) ≡ f b +ℤ f l)
        → ((r : ℤ) → f (record { rate = r; net = pos 0; tax = pos 0 }) ≡ pos 0)
        → ((b : RateLine) → is_nonzero b ≡ false → f b ≡ pos 0)
        → (r : ℤ) → at_rate f r (select_where is_nonzero bs) ≡ at_rate f r ls =
      λ f adds empty z r.
        at_rate-select f adds empty r bs z
        ∙ at_rate-grouped f adds empty r [] ls
        ∙ zero_+ℤ (at_rate f r ls) in
    record {
      once = select-DistinctRates bs (grouped-DistinctRates [] ls tt);
      something = select-All bs;
      nets = column (λ l. l.net) (λ l b. refl) (λ r. refl) (λ b n. (nonzero_or b n).0);
      taxes = column (λ l. l.tax) (λ l b. refl) (λ r. refl) (λ b n. (nonzero_or b n).1);
    }
