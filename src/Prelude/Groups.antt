-- ===== src/Prelude/Groups.antt =====
-- Rows keyed by identifiers: distinct keys, and sums regrouped by key.
use nexora_ai.Prelude.{
  ℕ, ◌≡◌, refl, ◌∙◌, Bool, true, false, ◌&&◌, Option, none, some, List, [], ◌∷◌, ◌++◌, arith, ◌==◌,
  if◌then◌else◌, any_of, first, is_some, select_where, Bool-cases, inl, inr,
}
use nexora_ai.Prelude.Int.{ℤ, pos, ◌+ℤ◌, total, int_laws, zero_+ℤ, +ℤ_zero}

module _ {ℓ} {K : Type ℓ} (key : K → ℕ) where
  abbrev pub Distinct : List K → Type 0
  Distinct [] = Unit
  Distinct (k ∷ ks) = (any_of (λ j. key k == key j) ks ≡ false) × Distinct ks

  abbrev pub find : ℕ → List K → Option K
  find i ks = first (λ k. i == key k) ks

  any_of-append_new :
      (k x : K) (ks : List K)
      → any_of (λ j. key k == key j) ks ≡ false
      → (key x == key k) ≡ false
      → any_of (λ j. key k == key j) (ks ++ x ∷ []) ≡ false
  any_of-append_new k x [] h n = ground arith
  any_of-append_new k x (j ∷ ks) h n = ground (arith, any_of-append_new k x ks)

  -- An insert that the primary key lets pass keeps the keys distinct.
  pub Distinct-append :
      (x : K) (ks : List K)
      → Distinct ks
      → any_of (λ j. key x == key j) ks ≡ false
      → Distinct (ks ++ x ∷ [])
  Distinct-append x [] h n = (refl, tt)
  Distinct-append x (k ∷ ks) h n =
      (any_of-append_new k x ks h.0 (ground arith), Distinct-append x ks h.1 (ground arith))

  -- The row of a key that no row has.
  pub find-new : (i : ℕ) (ks : List K) → any_of (λ j. i == key j) ks ≡ false → find i ks ≡ none
  find-new i [] n = refl
  find-new i (k ∷ ks) n = ground (arith, find-new i ks)

-- A row that is found stays found.
pub is_some-find_append {ℓ} :
    {K : Type ℓ} (key : K → ℕ) (i : ℕ) (ks js : List K)
    → is_some (find key i ks) ≡ true
    → is_some (find key i (ks ++ js)) ≡ true
is_some-find_append key i [] js h = cc
is_some-find_append key i (k ∷ ks) js h = ground (arith, is_some-find_append key i ks js)

module _ {ℓ κ} {K : Type ℓ} {L : Type κ} (key : K → ℕ) (ref : L → ℕ) (w : K → Bool)
    (f : L → ℤ) where
  -- The rows that refer to `k`, summed, if `k` passes the test.
  abbrev pub group : List L → K → ℤ
  group ls k = if w k then total f (select_where (λ l. key k == ref l) ls) else pos 0

  -- What one row adds: the row that it refers to decides.
  abbrev pub weighed : List K → L → ℤ
  weighed ks l = elim (find key (ref l) ks) [ none ↦ pos 0 | some k ↦ if w k then f l else pos 0 ]

  only : L → K → ℤ
  only l k = if w k && key k == ref l then f l else pos 0

  group-cons : (l : L) (ls : List L) (k : K) → group (l ∷ ls) k ≡ only l k +ℤ group ls k
  unfolding only
  group-cons l ls k = ground (arith, zero_+ℤ (group ls k), zero_+ℤ (pos 0))

  total-group-cons :
      (l : L) (ls : List L) (ks : List K)
      → total (group (l ∷ ls)) ks ≡ total (only l) ks +ℤ total (group ls) ks
  total-group-cons l ls [] = omega int_laws
  total-group-cons l ls (k ∷ ks) = rw (group-cons l ls k, total-group-cons l ls ks) (omega int_laws)

  total-only_absent :
      (l : L) (ks : List K) → any_of (λ j. ref l == key j) ks ≡ false → total (only l) ks ≡ pos 0
  unfolding only
  total-only_absent l [] n = refl
  total-only_absent l (k ∷ ks) n = ground (arith, total-only_absent l ks, zero_+ℤ (pos 0))

  total-only : (l : L) (ks : List K) → Distinct key ks → total (only l) ks ≡ weighed ks l
  unfolding only
  total-only l [] d = refl
  total-only l (k ∷ ks) d = elim (Bool-cases (ref l == key k)) [
    | inl e ↦
        let same : ref l ≡ key k = ground arith in
        let gone = total-only_absent l ks (rw same d.0) in
        unfold only in ground (arith, gone, +ℤ_zero (f l), +ℤ_zero (pos 0))
    | inr n ↦ ground (arith, total-only l ks d.1, zero_+ℤ (weighed ks l))
  ]

  total-group_nil : (ks : List K) → total (group []) ks ≡ pos 0
  total-group_nil [] = refl
  total-group_nil (k ∷ ks) = ground (arith, total-group_nil ks, zero_+ℤ (pos 0))

  -- Summing by groups over the rows with distinct keys is summing the weighed rows.
  pub regroup :
      (ks : List K) (ls : List L) → Distinct key ks → total (group ls) ks ≡ total (weighed ks) ls
  regroup ks [] d = total-group_nil ks
  regroup ks (l ∷ ls) d = total-group-cons l ls ks ∙ rw (total-only l ks d, regroup ks ls d) refl
