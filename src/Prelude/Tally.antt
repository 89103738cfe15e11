-- ===== src/Prelude/Tally.antt =====
-- A column of a table that counts what the rows of another table come to: a running total that is
-- kept within a limit.
use mathlib.Core.Option.{some-injective}
use nexora_ai.Prelude.{
  ℕ, ◌≡◌, refl, sym, ap, subst, ◌∙◌, Bool, true, false, some, List, [], ◌∷◌, ◌++◌, ◌==◌, arith, All,
  All-map, All-append, any_of, select_where, update_where, if◌then◌else◌, Bool-cases, inl, inr,
  ==→eq,
}
use nexora_ai.Prelude.Int.{ℤ, pos, ◌+ℤ◌, ◌≤ℤ◌, total, int_laws, +ℤ_zero}
use nexora_ai.Prelude.Rows.{
  All-update, Distinct-update, total-select_append, any_of-append, any_of-update, any_of-first,
  first-passes,
}
use nexora_ai.Prelude.Groups.{Distinct, Distinct-append, find}

pub All-pair {ℓ κ μ} :
    {A : Type ℓ} (P : A → Type κ) (Q : A → Type μ) (xs : List A)
    → All P xs
    → All Q xs
    → All (λ x. P x × Q x) xs
All-pair P Q [] h k = tt
All-pair P Q (x ∷ xs) h k = ((h.0, k.0), All-pair P Q xs h.1 k.1)

other {ℓ} :
    {K : Type ℓ} (key : K → ℕ) (i j : ℕ) (ks : List K) (y : K)
    → (i == j) ≡ true
    → any_of (λ k. j == key k) ks ≡ false
    → All (λ k. (i == key k) ≡ true → k ≡ y) ks
other key i j [] y e n = tt
other key i j (k ∷ ks) y e n = ((λ t. absurd (ground arith)), other key i j ks y e (ground arith))

-- The row of a key is the only one of it.
pub Distinct-found {ℓ} :
    {K : Type ℓ} (key : K → ℕ) (i : ℕ) (ks : List K) (y : K)
    → Distinct key ks
    → find key i ks ≡ some y
    → All (λ k. (i == key k) ≡ true → k ≡ y) ks
Distinct-found key i [] y d f = tt
Distinct-found key i (k ∷ ks) y d f = elim (Bool-cases (i == key k)) [
  | inl e ↦
      let g = subst (λ b. (if b then some k else find key i ks) ≡ some y) e f in
      ((λ _. some-injective _ _ g), other key i (key k) ks y e d.0)
  | inr e ↦
      let g = subst (λ b. (if b then some k else find key i ks) ≡ some y) e f in
      ((λ t. cc), Distinct-found key i ks y d.1 g)
]

module _ {K L : Type 0} (key : K → ℕ) (refers : ℕ → L → Bool) (counter limit : K → ℤ)
    (amount : L → ℤ) where
  pub record Counted (ls : List L) (k : K) : Type 0 where
    pub sum : counter k ≡ total amount (select_where (refers (key k)) ls)
    pub low : pos 0 ≤ℤ counter k
    pub high : counter k ≤ℤ limit k

  -- A row refers to rows that are there.
  abbrev pub Owned : List K → L → Type 0
  Owned ks l = (i : ℕ) → refers i l ≡ true → any_of (λ k. i == key k) ks ≡ true

  pub record Tallied (ks : List K) (ls : List L) : Type 0 where
    pub distinct : Distinct key ks
    pub owned : All (Owned ks) ls
    pub counted : All (Counted ls) ks

  nothing-Owned :
      (ks : List K) (i : ℕ) (ls : List L)
      → any_of (λ k. i == key k) ks ≡ false
      → All (Owned ks) ls
      → total amount (select_where (refers i) ls) ≡ pos 0
  nothing-Owned ks i [] n o = refl
  nothing-Owned ks i (l ∷ ls) n o = elim (Bool-cases (refers i l)) [
    | inl e ↦ cc (o.0 i e, n)
    | inr e ↦ rw e (nothing-Owned ks i ls n o.1)
  ]

  -- A new row has counted nothing, and nothing refers to it.
  pub Tallied-insert :
      (x : K) (ks : List K) (ls : List L)
      → any_of (λ k. key x == key k) ks ≡ false
      → counter x ≡ pos 0
      → pos 0 ≤ℤ limit x
      → Tallied ks ls
      → Tallied (ks ++ x ∷ []) ls
  Tallied-insert x ks ls n z h t = record {
    distinct = Distinct-append key x ks t.distinct n;
    owned =
        All-map _ _ ls
          (λ l o i r. rw (any_of-append (λ k. i == key k) ks x) (ground (arith, o i r))) t.owned;
    counted = All-append _ ks (x ∷ []) t.counted (
      record {
        sum = z ∙ sym (nothing-Owned ks (key x) ls n t.owned);
        low = rw z (omega arith);
        high = rw z h;
      },
      tt,
    );
  }

  -- An update that leaves the tally's columns alone.
  pub Tallied-update :
      (t : K → Bool) (f : K → K) (ks : List K) (ls : List L)
      → ((k : K) → key (f k) ≡ key k)
      → ((k : K) → counter (f k) ≡ counter k)
      → ((k : K) → limit (f k) ≡ limit k)
      → Tallied ks ls
      → Tallied (update_where t f ks) ls
  Tallied-update t f ks ls sk sc sl h = record {
    distinct = Distinct-update key t f sk ks h.distinct;
    owned =
        All-map _ _ ls
          (λ l o i r. any_of-update (λ k. i == key k) t f ks (λ k. ap (λ j. i == j) (sk k)) ∙ o i r)
          h.owned;
    counted =
        All-update (Counted ls) (Counted ls) t f ks
          (λ k e c. record {
            sum = rw (sc k, sk k) c.sum;
            low = rw (sc k) c.low;
            high = rw (sc k, sl k) c.high;
          })
          (λ k e c. c) h.counted;
  }

  -- A row that refers to nothing.
  pub Tallied-unrelated :
      (l : L) (ks : List K) (ls : List L)
      → ((i : ℕ) → refers i l ≡ false)
      → Tallied ks ls
      → Tallied ks (ls ++ l ∷ [])
  Tallied-unrelated l ks ls n h = record {
    distinct = h.distinct;
    owned = All-append _ ls (l ∷ []) h.owned ((λ i r. cc (n i, r)), tt);
    counted =
        All-map _ _ ks
          (λ k c. record {
            sum =
                c.sum
                ∙ sym (
                    total-select_append amount (refers (key k)) ls l
                    ∙ (rw (n (key k)) (+ℤ_zero _)));
            low = c.low;
            high = c.high;
          })
          h.counted;
  }

  -- A row that refers to `y`, counted there.
  pub Tallied-add :
      (i : ℕ) (y : K) (l : L) (f : K → K) (ks : List K) (ls : List L)
      → find key i ks ≡ some y
      → ((j : ℕ) → refers j l ≡ (j == i))
      → ((k : K) → key (f k) ≡ key k)
      → counter (f y) ≡ counter y +ℤ amount l
      → limit (f y) ≡ limit y
      → pos 0 ≤ℤ amount l
      → counter y +ℤ amount l ≤ℤ limit y
      → Tallied ks ls
      → Tallied (update_where (λ k. i == key k) f ks) (ls ++ l ∷ [])
  Tallied-add i y l f ks ls found r sk sc sl low high h = record {
    distinct = Distinct-update key _ f sk ks h.distinct;
    owned = All-append _ ls (l ∷ []) (All-map _ _ ls (λ m o j q. kept j ∙ o j q) h.owned) (
      (λ j q.
          let same : j ≡ i = ==→eq j i (sym (r j) ∙ q) in
          kept j
          ∙ subst (λ m. any_of (λ k. m == key k) ks ≡ true) (sym same)
              (any_of-first (λ k. i == key k) ks y found)),
      tt,
    );
    counted =
        All-update _ _ (λ k. i == key k) f ks
          (λ k e c.
            let same : k ≡ y = c.1 e in
            subst (λ z. Counted (ls ++ l ∷ []) (f z)) (sym same)
              (hit (subst (λ z. (i == key z) ≡ true) same e) (subst (Counted ls) same c.0)))
          (λ k e c. miss k e c.0)
          (All-pair _ _ ks h.counted (Distinct-found key i ks y h.distinct found));
  }
    where
      kept :
          (j : ℕ)
          → any_of (λ k. j == key k) (update_where (λ k. i == key k) f ks)
            ≡ any_of (λ k. j == key k) ks
      kept j = any_of-update (λ k. j == key k) (λ k. i == key k) f ks (λ k. ap (λ m. j == m) (sk k))

      flipped : (k : K) (b : Bool) → (i == key k) ≡ b → refers (key k) l ≡ b
      flipped k b e = r (key k) ∙ ground arith

      appended :
          (k : K) (b : Bool)
          → (i == key k) ≡ b
          → total amount (select_where (refers (key k)) (ls ++ l ∷ []))
            ≡ total amount (select_where (refers (key k)) ls) +ℤ (if b then amount l else pos 0)
      appended k b e =
          total-select_append amount (refers (key k)) ls l
          ∙ ap
              (λ c.
                total amount (select_where (refers (key k)) ls) +ℤ (if c then amount l else pos 0))
              (flipped k b e)

      hit : (i == key y) ≡ true → Counted ls y → Counted (ls ++ l ∷ []) (f y)
      hit e c = record {
        sum = sc ∙ ap (λ z. z +ℤ amount l) c.sum ∙ sym (rw (sk y) (appended y true e));
        low = let c_low = c.low in subst (λ z. pos 0 ≤ℤ z) (sym sc) (omega int_laws);
        high = rw (sc, sl) high;
      }

      miss : (k : K) → (i == key k) ≡ false → Counted ls k → Counted (ls ++ l ∷ []) k
      miss k e c = record {
        sum = c.sum ∙ sym (appended k false e ∙ +ℤ_zero _);
        low = c.low;
        high = c.high;
      }

  unchanged :
      (i : ℕ) (t : L → Bool) (f : L → L) (ls : List L)
      → ((j : ℕ) (l : L) → refers j (f l) ≡ refers j l)
      → ((l : L) → amount (f l) ≡ amount l)
      → total amount (select_where (refers i) (update_where t f ls))
        ≡ total amount (select_where (refers i) ls)
  unchanged i t f [] sr sa = refl
  unchanged i t f (l ∷ ls) sr sa = elim (Bool-cases (t l)) [
    | inl e ↦
        rw (e, sr i l)
          (elim (Bool-cases (refers i l)) [
            | inl r ↦ rw (r, sa l) (ap (λ z. amount l +ℤ z) (unchanged i t f ls sr sa))
            | inr r ↦ rw r (unchanged i t f ls sr sa)
          ])
    | inr e ↦ rw e (elim (Bool-cases (refers i l)) [
      | inl r ↦ rw r (ap (λ z. amount l +ℤ z) (unchanged i t f ls sr sa))
      | inr r ↦ rw r (unchanged i t f ls sr sa)
    ])
  ]

  -- An update of the rows that are counted, which leaves alone what they refer to and come to.
  pub Tallied-touch :
      (t : L → Bool) (f : L → L) (ks : List K) (ls : List L)
      → ((j : ℕ) (l : L) → refers j (f l) ≡ refers j l)
      → ((l : L) → amount (f l) ≡ amount l)
      → Tallied ks ls
      → Tallied ks (update_where t f ls)
  Tallied-touch t f ks ls sr sa h = record {
    distinct = h.distinct;
    owned = All-update _ _ t f ls (λ l e o i r. o i (sym (sr i l) ∙ r)) (λ l e o. o) h.owned;
    counted =
        All-map _ _ ks
          (λ k c. record {
            sum = c.sum ∙ sym (unchanged (key k) t f ls sr sa);
            low = c.low;
            high = c.high;
          })
          h.counted;
  }

-- A row that is found is found by its own key.
pub found_itself {ℓ} :
    {K : Type ℓ} (key : K → ℕ) (i : ℕ) (ks : List K) (y : K)
    → find key i ks ≡ some y
    → find key (key y) ks ≡ some y
found_itself key i ks y f =
    let same = ==→eq i (key y) (first-passes (λ k. i == key k) ks y f) in
    subst (λ j. find key j ks ≡ some y) same f
