-- ===== src/Inventory/Movement/Replay.antt =====
-- Idempotency of `_post_movement`: a request that comes again with its key changes nothing.
use nexora_ai.Prelude.{
  ◌≡◌, String, refl, sym, ap, ◌∙◌, subst, Bool, true, not, Option, none, some, List, [], ◌∷◌, ◌++◌,
  arith, first, eq_iff, str_eq, ==_refl,
}
use nexora_ai.Prelude.Int.{ℤ, eq_ℤ_refl, ◌+ℤ◌}
use nexora_ai.Session.{Uuid, Env, domain_validation, Session, ok, gets, ◌>>=◌, raise_if_inv}
use nexora_ai.Inventory.Model.{
  Key, client, transfer_key, same_key, movement_by_key, Product, InventoryMovement, Stock,
  same_option_key,
}
use nexora_ai.Inventory.Movement.{
  Move, post_or_replay, post_movement, is_precise, existing_movement, replay, usable_key,
  same_request, same_amount, same_text, same_uuid, movement_of,
}
use nexora_ai.Inventory.Movement.Steps.{post_new_inv}
use nexora_ai.Inventory.Movement.Kept.{replay_inv}

str_eq_refl : (t : String) → str_eq t t ≡ true
str_eq_refl t = (eq_iff t t).1 refl

same_key_refl : (k : Key) → same_key k k ≡ true
same_key_refl (client t) = str_eq_refl t
same_key_refl (transfer_key t m p) = ground (arith, str_eq_refl t)

same_amount_refl : (o : Option ℤ) → same_amount o o ≡ true
same_amount_refl none = refl
same_amount_refl (some a) = eq_ℤ_refl a

same_text_refl : (o : Option String) → same_text o o ≡ true
same_text_refl none = refl
same_text_refl (some t) = str_eq_refl t

same_uuid_refl : (o : Option Uuid) → same_uuid o o ≡ true
same_uuid_refl none = refl
same_uuid_refl (some i) = ==_refl i

-- The movement that a request makes is the request's.
movement-same_request :
    (i : Uuid) (r : Move) (after : ℤ) → same_request r (movement_of i r after) ≡ true
movement-same_request i r after = ground (
  arith,
  same_amount_refl r.unit_cost,
  same_text_refl r.reference_type,
  same_uuid_refl r.reference_id,
)

first-append_new :
    (t : InventoryMovement → Bool) (ms : List InventoryMovement) (m : InventoryMovement)
    → first t ms ≡ none
    → t m ≡ true
    → first t (ms ++ m ∷ []) ≡ some m
first-append_new t [] m n h = ground arith
first-append_new t (x ∷ ms) m n h = ground (arith, first-append_new t ms m)

found_or_none :
    (t : InventoryMovement → Bool) (ms : List InventoryMovement) (m : InventoryMovement)
    → first t ms ≡ some m
    → t m ≡ true
found_or_none t [] m e = cc
found_or_none t (x ∷ ms) m e = ground (arith, found_or_none t ms m)

-- What a lookup under a key finds once the movement `m` of that key is written.
existing-after :
    (k : Key) (m : InventoryMovement) (s t : Stock)
    → m.idempotency_key ≡ some k
    → t.movements ≡ s.movements ++ m ∷ []
    → movement_by_key k s ≡ none
    → movement_by_key k t ≡ some m
unfolding movement_by_key
existing-after k m s t e f n =
    ap (first (λ x. same_option_key x.idempotency_key k)) f
    ∙ first-append_new (λ x. same_option_key x.idempotency_key k) s.movements m n
        (ap (λ o. same_option_key o k) e ∙ same_key_refl k)

-- A second request of the same key and the same content, whatever has happened to the cost of its
-- product since.
replay_ok :
    (r : Move) (m : InventoryMovement) (s : Session Stock)
    → same_request r m ≡ true
    → replay r m s ≡ ok (m, s)
unfolding replay
replay_ok r m s h = rw h refl

usable_key_inv : (o : Option Key) (k : Key) → usable_key o ≡ some k → o ≡ some k
usable_key_inv none k e = cc
usable_key_inv (some (client t)) k e = ground arith
usable_key_inv (some (transfer_key t m p)) k e = e

-- What a movement under a usable key leaves: the request's movement, which its key finds.
posted_or_replayed :
    (env : Env) (r : Move) (k : Key) (s : Session Stock) {u : InventoryMovement × Session Stock}
    (o : Option InventoryMovement)
    → r.idempotency_key ≡ some k
    → movement_by_key k s.rows ≡ o
    → post_or_replay env r o s ≡ ok u
    → (same_request r u.0 ≡ true) × (movement_by_key k u.1.rows ≡ some u.0)
unfolding post_or_replay
posted_or_replayed env r k s {u} (some m) key found e =
    let (same, made, at) = replay_inv r m s e in
    (
      subst (λ x. same_request r x ≡ true) (sym made) same,
      ap (λ (t : Session Stock). movement_by_key k t.rows) at ∙ found ∙ ap some (sym made),
    )
posted_or_replayed env r k s {u} none key missing e =
    let (b, i, _, _, made, rows) = post_new_inv env r s e in
    let m = movement_of i r (b.quantity_on_hand +ℤ r.quantity) in
    (
      subst (λ x. same_request r x ≡ true) (sym made)
          (movement-same_request i r (b.quantity_on_hand +ℤ r.quantity)),
      existing-after k m s.rows u.1.rows key (ap (λ (t : Stock). t.movements) rows) missing
          ∙ ap some (sym made),
    )

posted_under :
    (env : Env) (r : Move) (k : Key) (s : Session Stock) {u : InventoryMovement × Session Stock}
    → usable_key r.idempotency_key ≡ some k
    → post_movement env r s ≡ ok u
    → (is_precise r.item.precision r.quantity ≡ true)
      × (same_request r u.0 ≡ true)
      × (movement_by_key k u.1.rows ≡ some u.0)
unfolding post_movement existing_movement
posted_under env r k s {u} usable e =
    let (precise, e1) =
      raise_if_inv (not (is_precise r.item.precision r.quantity))
        (domain_validation "VALIDATION_ERROR")
        (gets (existing_movement r.idempotency_key) >>= post_or_replay env r) s e in
    let e2 : post_or_replay env r (movement_by_key k s.rows) s ≡ ok u =
      subst
        (λ (o : Option Key).
          post_or_replay env r (elim o [ none ↦ none | some j ↦ movement_by_key j s.rows ]) s
          ≡ ok u)
        usable e1 in
    let (same, found) =
      posted_or_replayed env r k s (movement_by_key k s.rows)
        (usable_key_inv r.idempotency_key k usable) refl e2 in
    (ground arith, same, found)

-- A request that has been posted under a key that is not empty and comes again, at any time and
-- whatever the cost price of its product is then, returns the movement that was posted the first
-- time and writes nothing.
pub post_movement_again :
    (env later : Env) (r : Move) (item : Product) (k : Key) (s : Session Stock)
    {u : InventoryMovement × Session Stock}
    → usable_key r.idempotency_key ≡ some k
    → post_movement env r s ≡ ok u
    → item.id ≡ r.item.id
    → item.precision ≡ r.item.precision
    → post_movement later (record r { item = item }) u.1 ≡ ok u
unfolding post_movement existing_movement post_or_replay
post_movement_again env later r item k s {u} usable e same_id same_precision =
    let (precise, same, found) = posted_under env r k s usable e in
    let same_now : same_request (record r { item = item }) u.0 ≡ true =
      subst (λ i. same_request (record r { item = record item { id = i } }) u.0 ≡ true)
        (sym same_id) same in
    ground (
      arith,
      usable,
      found,
      precise,
      same_precision,
      replay_ok (record r { item = item }) u.0 u.1 same_now,
    )
