-- ===== src/Prelude/Rows.antt =====
-- Rows of a table under updates, inserts and queries.
use mathlib.Core.Option.{some-injective}
use nexora_ai.Prelude.{
  is_some, ℕ, ◌≡◌, refl, ap, ◌∙◌, subst, Bool, true, false, ◌||◌, some, List, [], ◌∷◌, ◌++◌, ◌==◌,
  arith, All, any_of, first, select_where, update_where, if◌then◌else◌, Bool-cases, inl, inr,
}
use nexora_ai.Prelude.Int.{ℤ, pos, ◌+ℤ◌, total, int_laws, zero_+ℤ, +ℤ_zero}
use nexora_ai.Prelude.Groups.{Distinct, find}

pub +ℤ_assoc : (a b c : ℤ) → a +ℤ (b +ℤ c) ≡ a +ℤ b +ℤ c
+ℤ_assoc a b c = omega int_laws

module _ {ℓ} {A : Type ℓ} where
  pub All-update {κ μ} :
      (P : A → Type κ) (Q : A → Type μ) (t : A → Bool) (f : A → A) (xs : List A)
      → ((x : A) → t x ≡ true → P x → Q (f x))
      → ((x : A) → t x ≡ false → P x → Q x)
      → All P xs
      → All Q (update_where t f xs)
  All-update P Q t f [] h k a = tt
  All-update P Q t f (x ∷ xs) h k a = (head (t x) refl, All-update P Q t f xs h k a.1)
    where
      head : (b : Bool) → t x ≡ b → Q (if b then f x else x)
      head true e = h x e a.0
      head false e = k x e a.0

  -- A row that is found passes its test, and has what all rows have.
  pub All-first {κ} :
      (P : A → Type κ) (t : A → Bool) (xs : List A) (y : A)
      → All P xs
      → first t xs ≡ some y
      → P y × (t y ≡ true)
  All-first P t [] y a e = cc
  All-first P t (x ∷ xs) y a e = pick (t x) refl (λ r. All-first P t xs y a.1 r) e
    where
      pick :
          (b : Bool)
          → t x ≡ b
          → (first t xs ≡ some y → P y × (t y ≡ true))
          → (if b then some x else first t xs) ≡ some y
          → P y × (t y ≡ true)
      pick true q later r = subst (λ z. P z × (t z ≡ true)) (some-injective _ _ r) (a.0, q)
      pick false q later r = later r

  pub first-passes : (t : A → Bool) (xs : List A) (y : A) → first t xs ≡ some y → t y ≡ true
  first-passes t [] y e = cc
  first-passes t (x ∷ xs) y e = ground (arith, first-passes t xs y)

  pub any_of-first : (t : A → Bool) (xs : List A) (y : A) → first t xs ≡ some y → any_of t xs ≡ true
  any_of-first t [] y e = cc
  any_of-first t (x ∷ xs) y e = ground (arith, any_of-first t xs y)

  pub first-update :
      (t : A → Bool) (f : A → A) (xs : List A) (y : A)
      → ((x : A) → t (f x) ≡ t x)
      → first t xs ≡ some y
      → first t (update_where t f xs) ≡ some (f y)
  first-update t f [] y h e = cc
  first-update t f (x ∷ xs) y h e = ground (arith, h x, h y, first-update t f xs y h)

  -- An update that leaves the test's columns alone.
  pub any_of-update :
      (t u : A → Bool) (f : A → A) (xs : List A)
      → ((x : A) → t (f x) ≡ t x)
      → any_of t (update_where u f xs) ≡ any_of t xs
  any_of-update t u f [] h = refl
  any_of-update t u f (x ∷ xs) h = ground (arith, h x, any_of-update t u f xs h)

  pub any_of-append :
      (t : A → Bool) (xs : List A) (y : A) → any_of t (xs ++ y ∷ []) ≡ any_of t xs || t y
  any_of-append t [] y = ground arith
  any_of-append t (x ∷ xs) y = ground (arith, any_of-append t xs y)

  pub total-select_append :
      (v : A → ℤ) (t : A → Bool) (xs : List A) (y : A)
      → total v (select_where t (xs ++ y ∷ []))
        ≡ total v (select_where t xs) +ℤ (if t y then v y else pos 0)
  total-select_append v t [] y = ground (arith, zero_+ℤ (v y), +ℤ_zero (v y), zero_+ℤ (pos 0))
  total-select_append v t (x ∷ xs) y = elim (Bool-cases (t x)) [
    | inl e ↦
        rw (e, total-select_append v t xs y)
          (+ℤ_assoc (v x) (total v (select_where t xs)) (if t y then v y else pos 0))
    | inr e ↦ rw e (total-select_append v t xs y)
  ]

  -- A test that fails everywhere with an alternative fails without it.
  pub any_of-left :
      (t u : A → Bool) (xs : List A) → any_of (λ x. t x || u x) xs ≡ false → any_of t xs ≡ false
  any_of-left t u [] h = refl
  any_of-left t u (x ∷ xs) h = ground (arith, any_of-left t u xs)

-- A row that takes the place of the row of its key.
module _ {ℓ} {K : Type ℓ} (key : K → ℕ) (y : K) where
  pub any_of-replace :
      (i : ℕ) (xs : List K)
      → any_of (λ x. i == key x) (update_where (λ x. key y == key x) (λ _. y) xs)
        ≡ any_of (λ x. i == key x) xs
  any_of-replace i [] = refl
  any_of-replace i (x ∷ xs) = ground (arith, any_of-replace i xs)

  pub Distinct-replace :
      (xs : List K)
      → Distinct key xs
      → Distinct key (update_where (λ x. key y == key x) (λ _. y) xs)
  Distinct-replace [] d = tt
  Distinct-replace (x ∷ xs) d = elim (Bool-cases (key y == key x)) [
    | inl e ↦
        let same : key x ≡ key y = ground arith in
        rw e (
          any_of-replace (key y) xs ∙ subst (λ i. any_of (λ j. i == key j) xs ≡ false) same d.0,
          Distinct-replace xs d.1,
        )
    | inr e ↦ rw e (any_of-replace (key x) xs ∙ d.0, Distinct-replace xs d.1)
  ]

-- An update that leaves the key alone.
module _ {ℓ} {A : Type ℓ} (key : A → ℕ) (t : A → Bool) (f : A → A)
    (same : (x : A) → key (f x) ≡ key x) where
  pub is_some-find_update :
      (i : ℕ) (xs : List A) → is_some (find key i (update_where t f xs)) ≡ is_some (find key i xs)
  is_some-find_update i [] = refl
  is_some-find_update i (x ∷ xs) = ground (arith, same x, is_some-find_update i xs)

  any_of-key_update :
      (i : ℕ) (xs : List A)
      → any_of (λ x. i == key x) (update_where t f xs) ≡ any_of (λ x. i == key x) xs
  any_of-key_update i [] = refl
  any_of-key_update i (x ∷ xs) = ground (arith, same x, any_of-key_update i xs)

  pub Distinct-update : (xs : List A) → Distinct key xs → Distinct key (update_where t f xs)
  Distinct-update [] d = tt
  Distinct-update (x ∷ xs) d = elim (Bool-cases (t x)) [
    | inl e ↦ rw (e, same x) (any_of-key_update (key x) xs ∙ d.0, Distinct-update xs d.1)
    | inr e ↦ rw e (any_of-key_update (key x) xs ∙ d.0, Distinct-update xs d.1)
  ]

-- An update that another undoes.
pub update_twice {ℓ} :
    {A : Type ℓ} (t : A → Bool) (f g : A → A) (xs : List A)
    → ((x : A) → t x ≡ true → (t (g x) ≡ true) × (f (g x) ≡ x))
    → update_where t f (update_where t g xs) ≡ xs
update_twice t f g [] h = refl
update_twice t f g (x ∷ xs) h = elim (Bool-cases (t x)) [
  | inl e ↦
      let (again, back) = h x e in rw (e, again, back) (ap (λ l. x ∷ l) (update_twice t f g xs h))
  | inr e ↦ rw (e, e) (ap (λ l. x ∷ l) (update_twice t f g xs h))
]

pub All-select {ℓ κ} :
    {A : Type ℓ} (P : A → Type κ) (t : A → Bool) (xs : List A)
    → All P xs
    → All P (select_where t xs)
All-select P t [] h = tt
All-select P t (x ∷ xs) h = elim (Bool-cases (t x)) [
  | inl e ↦ rw e (h.0, All-select P t xs h.1)
  | inr e ↦ rw e (All-select P t xs h.1)
]
