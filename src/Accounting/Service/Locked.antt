-- ===== src/Accounting/Service/Locked.antt =====
-- A locked period: it stays locked, and nothing is posted into it.
pub mod Kept
use nexora_ai.Prelude.{
  ℕ, ◌≡◌, refl, sym, ap, ◌∙◌, subst, Bool, true, false, ◌&&◌, ◌||◌, not, Option, none, some, List,
  [], ◌∷◌, ◌++◌, ◌==◌, arith, All, All-append, map, any_of, first, select_where, update_where,
  if◌then◌else◌, Bool-cases, inl, inr,
}
use nexora_ai.Prelude.Int.{ℤ}
use nexora_ai.Prelude.Rows.{All-first, All-update, any_of-append, any_of-update}
use nexora_ai.Session.{
  Uuid, Date, Context, Env, Session, Tx, ok, bind_inv, raise_if_inv, or_raise_inv, not_found,
  conflict, audit, raise_if, modify, ◌>>=◌, ◌>>◌,
}
use nexora_ai.Session.Keeps.{
  Keeps, Keeps-inv, Keeps-ok, Keeps-modify, Keeps-bind, Keeps-guarded, keeps_rules,
}
use nexora_ai.Accounting.Model.{
  Account, AccountType, PeriodStatus, opened, closed, locked, FiscalPeriod, contains_date,
  period_for_date, JournalEntry, Books, insert_account, insert_period, overlaps,
}
use nexora_ai.Accounting.Bootstrap.{bootstrap}
use nexora_ai.Accounting.Bootstrap.Kept.{bootstrap-Keeps}
use nexora_ai.Accounting.Post.{Posting, post, require_period}
use nexora_ai.Accounting.Post.Once.{is_open_to, takes}
use nexora_ai.Accounting.Post.Invariant.{
  post_inv, post_balanced_inv, enter_inv, enter_resolved_inv, require_period_rows,
}
use nexora_ai.Accounting.Service.{
  AccountCreate, close_parent, use_parent, create_account, PeriodCreate, create_period, is_legal,
  period, set_status, change_period_status, ManualEntryCreate, post_named, post_manual,
  set_reversal_of, set_reversed_by, link_reversal, post_reversal, reverse,
}

-- The entries of a period: their identifiers, dates and totals.
abbrev pub Header : Type 0
Header = Uuid × Date × ℤ × ℤ

abbrev pub header : JournalEntry → Header
header e = (e.id, e.entry_date, e.total_debit, e.total_credit)

abbrev pub in_period : Uuid → List JournalEntry → List Header
in_period i es = map header (select_where (λ e. i == e.fiscal_period_id) es)

abbrev pub IsLockedAs : Uuid → FiscalPeriod → Type 0
IsLockedAs i p = (i == p.id) ≡ true → p.status ≡ locked

-- The period stands among the periods and is locked, and has the entries of a list.
pub record IsFrozen (i : Uuid) (ids : List Header) (b : Books) : Type 0 where
  pub stands : any_of (λ p. i == p.id) b.periods ≡ true
  pub is_locked : All (IsLockedAs i) b.periods
  pub entries : in_period i b.entries ≡ ids

pub in_period-append :
    (i : Uuid) (es : List JournalEntry) (e : JournalEntry)
    → (i == e.fiscal_period_id) ≡ false
    → in_period i (es ++ e ∷ []) ≡ in_period i es
in_period-append i [] e n = rw n refl
in_period-append i (x ∷ es) e n = ground (arith, in_period-append i es e n)

in_period-cons :
    (i : Uuid) (e : JournalEntry) (es : List JournalEntry)
    → in_period i (e ∷ es)
      ≡ (if i == e.fiscal_period_id then header e ∷ in_period i es else in_period i es)
in_period-cons i e es = elim (Bool-cases (i == e.fiscal_period_id)) [
  | inl k ↦ rw k refl
  | inr k ↦ rw k refl
]

-- An update that leaves the period and the header alone.
pub record Alike (f : JournalEntry → JournalEntry) : Type 0 where
  pub its_period : (e : JournalEntry) → (f e).fiscal_period_id ≡ e.fiscal_period_id
  pub its_header : (e : JournalEntry) → header (f e) ≡ header e

pub in_period-update :
    (i : Uuid) (t : JournalEntry → Bool) (f : JournalEntry → JournalEntry) (es : List JournalEntry)
    → Alike f
    → in_period i (update_where t f es) ≡ in_period i es
in_period-update i t f [] h = refl
in_period-update i t f (e ∷ es) h =
    let rest = update_where t f es in
    let later = in_period-update i t f es h in
    let moved : in_period i (f e ∷ rest) ≡ in_period i (e ∷ es) =
      in_period-cons i (f e) rest
      ∙ ap (λ z. if i == z then header (f e) ∷ in_period i rest else in_period i rest)
          (h.its_period e)
      ∙ ap (λ z. if i == e.fiscal_period_id then z ∷ in_period i rest else in_period i rest)
          (h.its_header e)
      ∙ ap (λ z. if i == e.fiscal_period_id then header e ∷ z else z) later
      ∙ sym (in_period-cons i e es) in
    let kept : in_period i (e ∷ rest) ≡ in_period i (e ∷ es) =
      in_period-cons i e rest
      ∙ ap (λ z. if i == e.fiscal_period_id then header e ∷ z else z) later
      ∙ sym (in_period-cons i e es) in
    pick (t e) moved kept
  where
    pick :
        (b : Bool)
        → in_period i (f e ∷ update_where t f es) ≡ in_period i (e ∷ es)
        → in_period i (e ∷ update_where t f es) ≡ in_period i (e ∷ es)
        → in_period i ((if b then f e else e) ∷ update_where t f es) ≡ in_period i (e ∷ es)
    pick true m k = m
    pick false m k = k

pub insert_period_inv :
    (p : FiscalPeriod) (s : Session Books) {u : Unit × Session Books}
    → insert_period p s ≡ ok u
    → (any_of (λ q. p.id == q.id || overlaps p q) s.rows.periods ≡ false)
      × (u.1.rows ≡ record (s.rows) { periods = s.rows.periods ++ p ∷ [] })
unfolding insert_period
insert_period_inv p s h = ground arith

pub change_period_status_inv :
    (j : Uuid) (status : PeriodStatus) (s : Session Books) {u : Unit × Session Books}
    → change_period_status j status s ≡ ok u
    → (p : FiscalPeriod) × (period j s.rows ≡ some p)
      × (is_legal p.status status ≡ true)
      × (u.1.rows ≡ set_status j status s.rows)
unfolding change_period_status audit
change_period_status_inv j status s {u} h =
    let (p, found, h1) =
      or_raise_inv (period j s.rows) not_found
        (λ p.
          raise_if (not (is_legal p.status status)) (conflict "ILLEGAL_STATUS_TRANSITION")
          >> (modify (set_status j status)
              >> audit "accounting.period_status_changed" "fiscal_period" (some j)))
        s h in
    let (legal, h2) =
      raise_if_inv (not (is_legal p.status status)) (conflict "ILLEGAL_STATUS_TRANSITION")
        (modify (set_status j status)
          >> audit "accounting.period_status_changed" "fiscal_period" (some j))
        s h1 in
    (p, found, ground (arith, legal), ground (arith, h2))

pub another_id :
    (i : Uuid) (p : FiscalPeriod) (ps : List FiscalPeriod)
    → any_of (λ q. p.id == q.id || overlaps p q) ps ≡ false
    → any_of (λ q. i == q.id) ps ≡ true
    → (i == p.id) ≡ false
another_id i p [] h k = cc
another_id i p (q ∷ ps) h k = ground (arith, another_id i p ps)

-- A locked period has no legal change, and takes no posting.
pub no_change :
    (i j : Uuid) (status : PeriodStatus) (p : FiscalPeriod) (x : FiscalPeriod)
    → is_legal p.status status ≡ true
    → IsLockedAs i p
    → (j == p.id) ≡ true
    → (j == x.id) ≡ true
    → (i == x.id) ≡ false
no_change i j status p x legal k a b = elim (Bool-cases (i == x.id)) [
  | inl e ↦
      let same : (i == p.id) ≡ true = ground (arith, a, b, e) in
      cc (legal, ap (λ z. is_legal z status) (k same))
  | inr e ↦ e
]

pub no_posting :
    (i : Uuid) (c : Context) (allowed : Bool) (p : FiscalPeriod)
    → is_open_to c allowed p ≡ true
    → IsLockedAs i p
    → (i == p.id) ≡ false
no_posting i c allowed p o k = elim (Bool-cases (i == p.id)) [
  | inl e ↦ cc (o, ap (λ z. is_open_to c allowed (record p { status = z })) (k e))
  | inr e ↦ e
]
