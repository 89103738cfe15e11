-- ===== src/Accounting/Post/Once.antt =====
-- `post` appends to the ledger, posts a business event once, and only into a period that takes it.
use nexora_ai.Prelude.{
  ◌≡◌, refl, sym, ap, ◌∙◌, subst, Bool, true, false, ◌&&◌, some, List, [], ◌∷◌, ◌++◌, ◌==◌, arith,
  any_of, first, str_eq, eq_iff,
}
use nexora_ai.Session.{Uuid, Date, Context, Env, Session, ok, has_text}
use nexora_ai.Session.Keeps.{Keeps, Keeps-ok, Keeps-modify, Keeps-guarded, keeps_rules}
use nexora_ai.Accounting.Bootstrap.{bootstrap}
use nexora_ai.Accounting.Bootstrap.Kept.{bootstrap-Keeps}
use nexora_ai.Accounting.Model.{
  Account, opened, closed, locked, FiscalPeriod, contains_date, period_for_date, JournalEntry,
  JournalEntryLine, Books, insert_account, insert_period,
}
use nexora_ai.Accounting.Post.{
  Posting, draft_entry, stored_lines, debit_sum, credit_sum, require_period, post,
}
use nexora_ai.Accounting.Post.Write.{is_taken}
use nexora_ai.Accounting.Post.Invariant.{
  enter_resolved_inv, enter_inv, post_balanced_inv, post_inv, require_period_rows,
}

-- The ledger: what `_bootstrap` never touches.
abbrev pub HasLedger : List JournalEntry → List JournalEntryLine → Books → Type 0
HasLedger es ls b = (b.entries ≡ es) × (b.lines ≡ ls)

module _ (es : List JournalEntry) (ls : List JournalEntryLine) where
  insert_account-HasLedger : (a : Account) → Keeps (HasLedger es ls) (insert_account a)
  unfolding insert_account
  insert_account-HasLedger a = Keeps-guarded _ _ _ λ b h _. h

  insert_period-HasLedger : (p : FiscalPeriod) → Keeps (HasLedger es ls) (insert_period p)
  unfolding insert_period
  insert_period-HasLedger p = search (keeps_rules, Keeps-modify)

  pub bootstrap-HasLedger : (env : Env) → Keeps (HasLedger es ls) (bootstrap env)
  bootstrap-HasLedger = bootstrap-Keeps insert_account-HasLedger insert_period-HasLedger λ j b h. h

-- An entry of the business event of a posting.
abbrev pub is_event : Posting → JournalEntry → Bool
is_event p f =
    str_eq p.source_type f.source_type
    && p.source_id == f.source_id
    && str_eq p.event_type f.event_type

no_event :
    (c : Context) (env : Env) (p : Posting) (i journal period : Uuid) (es : List JournalEntry)
    → any_of
        (is_taken (draft_entry c env p i journal period (debit_sum p.lines) (credit_sum p.lines)))
        es
      ≡ false
    → any_of (is_event p) es ≡ false
no_event c env p i journal period [] h = refl
no_event c env p i journal period (f ∷ es) h = ground (arith, no_event c env p i journal period es)

-- What a period must be for a posting of the caller.
abbrev pub is_open_to : Context → Bool → FiscalPeriod → Bool
is_open_to c allow_closed period = elim period.status [
  | opened ↦ true
  | closed ↦ allow_closed && has_text "accounting.post_closed" c.permissions
  | locked ↦ false
]

pub takes :
    (c : Context) (allowed : Bool) (p : FiscalPeriod) (s : Session Books) {u : Unit × Session Books}
    → require_period c allowed p s ≡ ok u
    → is_open_to c allowed p ≡ true
unfolding require_period
takes c allowed p s h = ground arith

-- The result of a posting that succeeds.
pub record IsPosting (c : Context) (p : Posting) (b : Books) (e : JournalEntry) (d : Books)
    : Type 0 where
  pub period : FiscalPeriod
  pub in_period : contains_date p.entry_date period ≡ true
  pub open_to : is_open_to c p.allow_closed period ≡ true
  pub of_period : e.fiscal_period_id ≡ period.id
  pub new_event : any_of (is_event p) b.entries ≡ false
  pub its_event : is_event p e ≡ true
  pub entries_after : d.entries ≡ b.entries ++ e ∷ []
  pub rows : List JournalEntryLine
  pub lines_after : d.lines ≡ b.lines ++ rows

first_passes :
    (d : Date) (ps : List FiscalPeriod) (p : FiscalPeriod)
    → first (contains_date d) ps ≡ some p
    → contains_date d p ≡ true
first_passes d [] p h = cc
first_passes d (q ∷ ps) p h = ground (arith, first_passes d ps p)

is_event_self :
    (p : Posting) (e : JournalEntry)
    → e.source_type ≡ p.source_type
    → e.source_id ≡ p.source_id
    → e.event_type ≡ p.event_type
    → is_event p e ≡ true
is_event_self p e a b c =
    ground (arith, a, b, c, eq_iff p.source_type e.source_type, eq_iff p.event_type e.event_type)

appended :
    {a b c : List JournalEntry} {e f : JournalEntry}
    → a ≡ b ++ f ∷ []
    → b ≡ c
    → e ≡ f
    → a ≡ c ++ e ∷ []
appended {c = c} {f = f} p q r = p ∙ ap (λ y. y ++ f ∷ []) q ∙ ap (λ y. c ++ y ∷ []) (sym r)

-- When `post` returns an entry: the posting date lies in a period, the entry's, that is open, or
-- closed with the caller allowed to post into it, never locked; no entry of the same source and
-- event stood in the ledger, the new one is of it; and the ledger is what it was, with the entry
-- and its lines appended.
pub post-IsPosting :
    (c : Context) (env : Env) (p : Posting) (s : Session Books) {u : JournalEntry × Session Books}
    → post c env p s ≡ ok u
    → IsPosting c p s.rows u.0 u.1.rows
unfolding period_for_date
post-IsPosting c env p s {u} h =
    let (t, b, _, h1) = post_inv c env p s h in
    let (es, ls) =
      Keeps-ok s t tt (bootstrap-HasLedger s.rows.entries s.rows.lines env) (refl, refl) b in
    let (period, found, t2, g, h2) = post_balanced_inv c env p t h1 in
    let same = require_period_rows c p.allow_closed period t g in
    let (resolved, _, _, k) = enter_inv c env p period t2 h2 in
    let (journal, i, x) = enter_resolved_inv c env p period resolved t2 k in
    let es2 : t2.rows.entries ≡ s.rows.entries = ap (λ (r : Books). r.entries) same ∙ es in
    let ls2 : t2.rows.lines ≡ s.rows.lines = ap (λ (r : Books). r.lines) same ∙ ls in
    record {
      period = period;
      in_period = first_passes p.entry_date t.rows.periods period found;
      open_to = takes c p.allow_closed period t g;
      of_period = ap (λ (e : JournalEntry). e.fiscal_period_id) x.same;
      new_event =
          subst (λ xs. any_of (is_event p) xs ≡ false) es2
            (no_event c env p i journal period.id t2.rows.entries x.fresh);
      its_event =
          is_event_self p u.0 (ap (λ (e : JournalEntry). e.source_type) x.same)
            (ap (λ (e : JournalEntry). e.source_id) x.same)
            (ap (λ (e : JournalEntry). e.event_type) x.same);
      entries_after = appended (ap (λ (r : Books). r.entries) x.rows_after) es2 x.same;
      rows = stored_lines i resolved;
      lines_after =
          ap (λ (r : Books). r.lines) x.rows_after ∙ ap (λ xs. xs ++ stored_lines i resolved) ls2;
    }
