-- ===== src/Inventory/Expiry/Kept.antt =====
-- The expiry of reservations keeps the invariant of the stock: the rows of its query are listed,
-- active and different, and stay so while the ones before them are released.
use nexora_ai.Prelude.{
  take, ℕ, zero, suc, ◌≡◌, refl, sym, ap, ◌∙◌, subst, Bool, true, false, some, List, [], ◌∷◌, ◌==◌,
  arith, All, any_of, first, select_where, update_where, Bool-cases, inl, inr, length,
}
use nexora_ai.Prelude.Groups.{Distinct}
use nexora_ai.Session.{Env, Session, integrity_error, bind_inv, or_raise_inv, ok, pure}
use nexora_ai.Session.Keeps.{Keeps, Keeps-inv}
use nexora_ai.Inventory.Model.{InventoryBalance, StockReservation, Stock, is_active, at_balance}
use nexora_ai.Inventory.Operations.{give_back}
use nexora_ai.Inventory.Expiry.{
  is_expired, release_one, release_all, release_expired, insert_expiring, sort_expiring,
  expires_first,
}
use nexora_ai.Inventory.Balances.{IsStock, reservation_id}
use nexora_ai.Inventory.Reservations.{give_back_inv, given_back, release_row}
use nexora_ai.Inventory.Reservations.Service.{given_back-IsStock}

-- A row as the query read it: listed under its identifier, and active.
abbrev IsListed : List StockReservation → StockReservation → Type 0
IsListed rs r = (first (λ x. r.id == x.id) rs ≡ some r) × (is_active r.status ≡ true)

abbrev is_among : StockReservation → List StockReservation → Bool
is_among r rs = any_of (λ x. r.id == x.id) rs

is_among-select :
    (r : StockReservation) (t : StockReservation → Bool) (rs : List StockReservation)
    → is_among r rs ≡ false
    → is_among r (select_where t rs) ≡ false
is_among-select r t [] h = refl
is_among-select r t (x ∷ rs) h = ground (arith, is_among-select r t rs)

Distinct-select :
    (t : StockReservation → Bool) (rs : List StockReservation)
    → Distinct reservation_id rs
    → Distinct reservation_id (select_where t rs)
Distinct-select t [] d = tt
Distinct-select t (x ∷ rs) d = elim (Bool-cases (t x)) [
  | inl e ↦ rw e (is_among-select x t rs d.0, Distinct-select t rs d.1)
  | inr e ↦ rw e (Distinct-select t rs d.1)
]

-- One more row, of another identifier, in front of the table.
IsListed-cons :
    (x : StockReservation) (rs ys : List StockReservation)
    → is_among x ys ≡ false
    → All (IsListed rs) ys
    → All (IsListed (x ∷ rs)) ys
IsListed-cons x rs [] n h = tt
IsListed-cons x rs (y ∷ ys) n h =
    ((ground (arith, h.0.0), h.0.1), IsListed-cons x rs ys (ground arith) h.1)

expired-IsListed :
    (now : ℕ) (rs : List StockReservation)
    → Distinct reservation_id rs
    → All (IsListed rs) (select_where (is_expired now) rs)
expired-IsListed now [] d = tt
expired-IsListed now (x ∷ rs) d =
    let later =
      IsListed-cons x rs (select_where (is_expired now) rs)
        (is_among-select x (is_expired now) rs d.0) (expired-IsListed now rs d.1) in
    elim (Bool-cases (is_expired now x)) [
      | inl e ↦ rw e ((ground arith, ground arith), later)
      | inr e ↦ rw e later
    ]

All-insert {κ} :
    (P : StockReservation → Type κ) (q : StockReservation) (rs : List StockReservation)
    → P q
    → All P rs
    → All P (insert_expiring q rs)
All-insert P q [] p h = (p, tt)
All-insert P q (r ∷ rs) p h = elim (Bool-cases (expires_first q r)) [
  | inl e ↦ rw e (p, h)
  | inr e ↦ rw e (h.0, All-insert P q rs p h.1)
]

All-sort {κ} :
    (P : StockReservation → Type κ) (rs : List StockReservation)
    → All P rs
    → All P (sort_expiring rs)
All-sort P [] h = tt
All-sort P (r ∷ rs) h = All-insert P r (sort_expiring rs) h.0 (All-sort P rs h.1)

is_among-insert :
    (r q : StockReservation) (rs : List StockReservation)
    → (r.id == q.id) ≡ false
    → is_among r rs ≡ false
    → is_among r (insert_expiring q rs) ≡ false
is_among-insert r q [] n h = ground arith
is_among-insert r q (x ∷ rs) n h = elim (Bool-cases (expires_first q x)) [
  | inl e ↦ rw e (ground arith)
  | inr e ↦ rw e (ground (arith, is_among-insert r q rs n))
]

is_among-sort :
    (r : StockReservation) (rs : List StockReservation)
    → is_among r rs ≡ false
    → is_among r (sort_expiring rs) ≡ false
is_among-sort r [] h = refl
is_among-sort r (x ∷ rs) h =
    is_among-insert r x (sort_expiring rs) (ground arith) (is_among-sort r rs (ground arith))

Distinct-insert :
    (q : StockReservation) (rs : List StockReservation)
    → is_among q rs ≡ false
    → Distinct reservation_id rs
    → Distinct reservation_id (insert_expiring q rs)
Distinct-insert q [] n d = (refl, tt)
Distinct-insert q (r ∷ rs) n d = elim (Bool-cases (expires_first q r)) [
  | inl e ↦ rw e (n, d)
  | inr e ↦
      rw e (is_among-insert r q rs (ground arith) d.0, Distinct-insert q rs (ground arith) d.1)
]

Distinct-sort :
    (rs : List StockReservation)
    → Distinct reservation_id rs
    → Distinct reservation_id (sort_expiring rs)
Distinct-sort [] d = tt
Distinct-sort (r ∷ rs) d =
    Distinct-insert r (sort_expiring rs) (is_among-sort r rs d.0) (Distinct-sort rs d.1)

All-take {κ} :
    (P : StockReservation → Type κ) (n : ℕ) (rs : List StockReservation)
    → All P rs
    → All P (take n rs)
All-take P zero rs h = tt
All-take P (suc n) [] h = tt
All-take P (suc n) (r ∷ rs) h = (h.0, All-take P n rs h.1)

is_among-take :
    (r : StockReservation) (n : ℕ) (rs : List StockReservation)
    → is_among r rs ≡ false
    → is_among r (take n rs) ≡ false
is_among-take r zero rs h = refl
is_among-take r (suc n) [] h = refl
is_among-take r (suc n) (x ∷ rs) h = ground (arith, is_among-take r n rs)

Distinct-take :
    (n : ℕ) (rs : List StockReservation)
    → Distinct reservation_id rs
    → Distinct reservation_id (take n rs)
Distinct-take zero rs d = tt
Distinct-take (suc n) [] d = tt
Distinct-take (suc n) (r ∷ rs) d = (is_among-take r n rs d.0, Distinct-take n rs d.1)

-- Releasing one row leaves the others listed.
first-released :
    (i j : ℕ) (rs : List StockReservation)
    → (i == j) ≡ false
    → first (λ x. j == x.id) (update_where (λ x. i == x.id) release_row rs)
      ≡ first (λ x. j == x.id) rs
unfolding release_row
first-released i j [] n = refl
first-released i j (x ∷ rs) n = ground (arith, first-released i j rs n)

IsListed-released :
    (r : StockReservation) (rs ys : List StockReservation)
    → is_among r ys ≡ false
    → All (IsListed rs) ys
    → All (IsListed (update_where (λ x. r.id == x.id) release_row rs)) ys
IsListed-released r rs [] n h = tt
IsListed-released r rs (y ∷ ys) n h = (
  (first-released r.id y.id rs (ground arith) ∙ h.0.0, h.0.1),
  IsListed-released r rs ys (ground arith) h.1,
)

release_one_inv :
    (r : StockReservation) (s : Session Stock) {u : Unit × Session Stock}
    → IsStock s.rows
    → IsListed s.rows.reservations r
    → release_one r s ≡ ok u
    → (b : InventoryBalance) × (u.1.rows ≡ given_back r b s.rows) × IsStock u.1.rows
unfolding release_one
release_one_inv r s {u} h l e =
    let (b, found, e1) =
      or_raise_inv (first (at_balance r.warehouse_id r.product_id) s.rows.balances)
        (integrity_error "inventory_balances") (give_back r) s e in
    let after = give_back_inv r b s e1 in
    (b, after, subst IsStock (sym after) (given_back-IsStock r b s.rows h l.0 l.1 found))

release_all-IsStock :
    (rs : List StockReservation) (s : Session Stock) {u : Unit × Session Stock}
    → IsStock s.rows
    → All (IsListed s.rows.reservations) rs
    → Distinct reservation_id rs
    → release_all rs s ≡ ok u
    → IsStock u.1.rows
unfolding release_all release_row
release_all-IsStock [] s {u} h l d e =
    let same : s ≡ u.1 = ground arith in subst (λ (t : Session Stock). IsStock t.rows) same h
release_all-IsStock (r ∷ rs) s {u} h l d e =
    let (_, t, p, e1) = bind_inv (release_one r) (λ _. release_all rs) s e in
    let (b, after, kept) = release_one_inv r s h l.0 p in
    release_all-IsStock rs t kept
      (subst (λ x. All (IsListed x) rs) (sym (ap (λ (x : Stock). x.reservations) after))
        (IsListed-released r s.rows.reservations rs d.0 l.1))
      d.1 e1

pub release_expired-IsStock : (env : Env) → Keeps IsStock (release_expired env)
unfolding release_expired
release_expired-IsStock env = Keeps-inv {P = IsStock} {m = release_expired env} λ s u h e.
    let rows = s.rows.reservations in
    let due = sort_expiring (select_where (is_expired env.now) rows) in
    let (_, t, p, e1) =
      bind_inv (release_all (take 500 due)) (λ _. pure (length (take 500 due))) s e in
    let same : t ≡ u.1 = ground arith in
    subst (λ (x : Session Stock). IsStock x.rows) same
      (release_all-IsStock (take 500 due) s h
        (All-take (IsListed rows) 500 due
          (All-sort (IsListed rows) _ (expired-IsListed env.now rows h.reservations_distinct)))
        (Distinct-take 500 due
          (Distinct-sort _ (Distinct-select (is_expired env.now) rows h.reservations_distinct)))
        p)
