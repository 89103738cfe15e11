-- ===== src/Session.antt =====
-- What every service shares: the errors of `core/errors.py`, the caller of `core/context.py`,
-- the transaction of `db/session.py`, and the values that a request takes from outside.
pub mod Keeps
pub mod Served
pub mod Takes
use nexora_ai.Prelude.{
  ℕ, ◌+◌, ◌*◌, ◌/◌, ◌%◌, String, ◌≡◌, refl, Bool, true, false, not, Option, none, some, List, [],
  ◌∷◌, ◌++◌, ◌||◌, ◌==◌, str_eq,
}

-- The exceptions by class, with their `code`; the last four are not `AppError`s; a
-- `database_error` is what a trigger raises.
pub data Failure : Type 0 where
  not_found : Failure
  permission_denied : String → Failure
  conflict : String → Failure
  domain_validation : String → Failure
  runtime_error : String → Failure
  value_error : String → Failure
  integrity_error : String → Failure
  database_error : String → Failure

pub data Result {ℓ} (A : Type ℓ) : Type ℓ where
  ok : A → Result A
  err : Failure → Result A

-- A calendar date as year, month and day in decimal digits, in the order of dates.
abbrev pub Date : Type 0
Date = ℕ

unfoldable pub date : ℕ → ℕ → ℕ → Date
date year month day = 10_000 * year + 100 * month + day

abbrev pub year_of : Date → ℕ
year_of d = d / 10_000

abbrev pub month_of : Date → ℕ
month_of d = d / 100 % 100

-- Rows are read by identifiers; only their equality and order matter.
abbrev pub Uuid : Type 0
Uuid = ℕ

-- `TenantContext`; `branch_ids` is `none` for a caller who may use every branch.
pub record Context : Type 0 where
  pub membership_id : Uuid
  pub permissions : List String
  pub branch_ids : Option (List Uuid)

abbrev pub has_id : Uuid → List Uuid → Bool
has_id i [] = false
has_id i (j ∷ js) = i == j || has_id i js

abbrev pub has_text : String → List String → Bool
has_text s [] = false
has_text s (t ∷ ts) = str_eq s t || has_text s ts

-- `branch_ids is None or branch_id in branch_ids`
unfoldable pub may_use_branch : Context → Uuid → Bool
may_use_branch c branch = elim c.branch_ids [ none ↦ true | some ids ↦ has_id branch ids ]

-- What the process takes from outside: the clock, and the n-th value that `uuid7` returns.
pub record Env : Type 0 where
  pub uuid7 : ℕ → Uuid
  pub now : ℕ
  pub today : Date

-- A counter of `document_sequences`, and a number that it has given out: the printed form is the
-- prefix, the period and the value, `INV-2026-000001`.
pub record Sequence : Type 0 where
  pub series : String
  pub period : ℕ
  pub next_value : ℕ
  pub prefix : String

pub record DocumentNumber : Type 0 where
  pub prefix : String
  pub period : ℕ
  pub allocated : ℕ

-- A row of `audit_events`, without its metadata.
pub record AuditRow : Type 0 where
  pub action : String
  pub resource_type : String
  pub resource_id : Option Uuid

-- The rows of a module that a transaction sees, those that every module writes to, and the number
-- of identifiers drawn.
pub record Session (S : Type 0) : Type 0 where
  pub rows : S
  pub sequences : List Sequence
  pub audit_rows : List AuditRow
  pub drawn : ℕ

-- A method inside a transaction. What stands written when an exception leaves it is rolled back,
-- so an error carries no state.
abbrev pub Tx : Type 0 → Type 0 → Type 0
Tx S A = Session S → Result (A × Session S)

infixl 5 ◌>>=◌ ◌>>◌
abbrev pub ◌>>=◌ : {S A B : Type 0} → Tx S A → (A → Tx S B) → Tx S B
◌>>=◌ m f s = elim (m s) [ err e ↦ err e | ok (a, t) ↦ f a t ]

abbrev pub ◌>>◌ : {S B : Type 0} → Tx S Unit → Tx S B → Tx S B
m >> k = m >>= λ _. k

abbrev pub pure : {S A : Type 0} → A → Tx S A
pure a s = ok (a, s)

abbrev pub raise : {S A : Type 0} → Failure → Tx S A
raise e s = err e

-- `if test: raise e`
abbrev pub raise_if : {S : Type 0} → Bool → Failure → Tx S Unit
raise_if true e s = err e
raise_if false e s = ok (tt, s)

-- `if value is None: raise e`
abbrev pub or_raise : {S A : Type 0} → Option A → Failure → Tx S A
or_raise none e s = err e
or_raise (some a) e s = ok (a, s)

abbrev pub gets : {S A : Type 0} → (S → A) → Tx S A
gets f s = ok (f s.rows, s)

abbrev pub modify : {S : Type 0} → (S → S) → Tx S Unit
modify f s = ok (tt, record s { rows = f s.rows })

abbrev pub new_id : {S : Type 0} → Env → Tx S Uuid
new_id env s = ok (env.uuid7 s.drawn, record s { drawn = s.drawn + 1 })

-- `AuditService.record`
unfoldable pub audit : {S : Type 0} → String → String → Option Uuid → Tx S Unit
audit action resource_type resource_id s = ok (
  tt,
  record s {
    audit_rows =
        s.audit_rows
        ++ record { action = action; resource_type = resource_type; resource_id = resource_id }
          ∷ [];
  },
)

-- `service_transaction`: the rows of a method that returns are committed; an exception leaves the
-- committed rows as they were.
unfoldable pub service_transaction : {S A : Type 0} → Tx S A → Session S → Result A × Session S
service_transaction m s = elim (m s) [ err e ↦ (err e, s) | ok (a, t) ↦ (ok a, t) ]

-- `try: … except IntegrityError: raise e`
abbrev pub except_integrity : {S A : Type 0} → Failure → Tx S A → Tx S A
except_integrity e m s = elim (m s) [
  | ok r ↦ ok r
  | err (integrity_error name) ↦ err e
  | err f ↦ err f
]

-- A method of another service, inside the caller's transaction.
abbrev pub within : {S T A : Type 0} → (S → T) → (T → S → S) → Tx T A → Tx S A
within get set m s =
    elim (m (record {
      rows = get s.rows;
      sequences = s.sequences;
      audit_rows = s.audit_rows;
      drawn = s.drawn;
    })) [
      | err e ↦ err e
      | ok (a, t) ↦ ok (
        a,
        record {
          rows = set t.rows s.rows;
          sequences = t.sequences;
          audit_rows = t.audit_rows;
          drawn = t.drawn;
        },
      )
    ]

-- `_require_branch`
unfoldable pub require_branch : {S : Type 0} → Context → Uuid → Tx S Unit
unfolding may_use_branch
require_branch c branch =
    raise_if (not (may_use_branch c branch)) (permission_denied "BRANCH_ACCESS_DENIED")

-- A step that succeeds hands its result and its session on.
pub bind_ok :
    {S A B : Type 0} (m : Tx S A) (f : A → Tx S B) {s t : Session S} {a : A}
    → m s ≡ ok (a, t)
    → (m >>= f) s ≡ f a t
bind_ok m f h = rw (h, ◌>>=◌) refl

pub bind_err :
    {S A B : Type 0} (m : Tx S A) (f : A → Tx S B) {s : Session S} {e : Failure}
    → m s ≡ err e
    → (m >>= f) s ≡ err e
bind_err m f h = rw (h, ◌>>=◌) refl

-- What a successful bind went through.
pub bind_inv :
    {S A B : Type 0} (m : Tx S A) (f : A → Tx S B) (s : Session S) {u : B × Session S}
    → (m >>= f) s ≡ ok u
    → (a : A) × (t : Session S) × (m s ≡ ok (a, t)) × (f a t ≡ ok u)
bind_inv {S} {A} {B} m f s {u} h = go (m s) refl h
  where
    go :
        (r : Result (A × Session S))
        → m s ≡ r
        → elim r [ err e ↦ err e | ok (a, t) ↦ f a t ] ≡ ok u
        → (a : A) × (t : Session S) × (m s ≡ ok (a, t)) × (f a t ≡ ok u)
    go (err e) p q = cc
    go (ok (a, t)) p q = (a, t, p, q)

-- A guard that lets a method pass was false, and changes nothing.
pub raise_if_inv :
    {S B : Type 0} (b : Bool) (e : Failure) (m : Tx S B) (s : Session S) {u : B × Session S}
    → (raise_if b e >> m) s ≡ ok u
    → (b ≡ false) × (m s ≡ ok u)
raise_if_inv true e m s h = cc
raise_if_inv false e m s h = (refl, h)

pub or_raise_inv :
    {S A B : Type 0} (o : Option A) (e : Failure) (f : A → Tx S B) (s : Session S)
    {u : B × Session S}
    → (or_raise o e >>= f) s ≡ ok u
    → (a : A) × (o ≡ some a) × (f a s ≡ ok u)
or_raise_inv none e f s h = cc
or_raise_inv (some a) e f s h = (a, refl, h)
