-- ===== src/Accounting/Post/Invariant.antt =====
-- `post` keeps the invariant of the books, and adds one entry for the lines that it is given.
use nexora_ai.Prelude.{◌+◌, ◌≡◌, sym, subst, Bool, true, false, some, List, arith, All, any_of}
use nexora_ai.Session.{
  Uuid, Context, Env, DocumentNumber, Session, ok, bind_inv, raise_if_inv, or_raise_inv,
  runtime_error, new_id, ◌>>=◌, ◌>>◌, conflict, domain_validation, raise_if,
}
use nexora_ai.Session.Keeps.{Keeps-ok}
use nexora_ai.Accounting.PostingRules.{PostingLine}
use nexora_ai.Accounting.Bootstrap.{bootstrap}
use nexora_ai.Accounting.Bootstrap.Kept.{HasAccounts, Holds, bootstrap-Holds}
use nexora_ai.Accounting.Model.{
  Account, FiscalPeriod, JournalEntry, JournalEntryLine, Books, exactly_one_side, lines_of,
  period_for_date,
}
use nexora_ai.Accounting.Invariant.{IsBooks}
use nexora_ai.Accounting.Post.{
  AccountMap, system_accounts, Posting, chosen_accounts, resolve, stored_lines, unusable,
  draft_entry, finished, balanced_rows, write_entry, debit_sum, credit_sum, is_unbalanced, enter,
  enter_resolved, post, post_balanced, require_period,
}
use nexora_ai.Accounting.Post.Charted.{
  InChart, system_accounts_in, rows_in, chosen_in, map_ids, in_chart,
}
use nexora_ai.Accounting.Post.Write.{is_taken, written, write_entry_inv}
use nexora_ai.Accounting.Post.Kept.{IsRow, written-IsBooks}

pub require_period_rows :
    (c : Context) (allowed : Bool) (p : FiscalPeriod) (s : Session Books) {u : Unit × Session Books}
    → require_period c allowed p s ≡ ok u
    → u.1.rows ≡ s.rows
unfolding require_period
require_period_rows c allowed p s h = ground arith

-- What `post` has done when it returns: `entered b e rows c` from the books `b` to the books `c`.
pub record IsEntered (b : Books) (d : JournalEntry) (rows : List JournalEntryLine)
    (e : JournalEntry) (c : Books) : Type 0 where
  pub number : DocumentNumber
  pub same : e ≡ finished d number
  pub fresh : any_of (is_taken d) b.entries ≡ false
  pub sides : All (λ l. exactly_one_side l ≡ true) rows
  pub rows_after : c ≡ written (finished d number) rows b
  pub balanced :
      balanced_rows (finished d number) (lines_of d.id (written (finished d number) rows b)) ≡ true

entered-IsBooks :
    (b : Books) (d : JournalEntry) (rows : List JournalEntryLine) (e : JournalEntry) (c : Books)
    → IsBooks b
    → All (IsRow b.accounts d.id) rows
    → IsEntered b d rows e c
    → IsBooks c
entered-IsBooks b d rows e c h on x =
    subst IsBooks (sym x.rows_after)
      (written-IsBooks d x.number rows b h on x.fresh x.sides x.balanced)

-- What `enter` went through.
pub enter_resolved_inv :
    (c : Context) (env : Env) (p : Posting) (period : FiscalPeriod)
    (resolved : List (PostingLine × Account)) (s : Session Books) {u : JournalEntry × Session Books}
    → enter_resolved c env p period resolved s ≡ ok u
    → (journal : Uuid) × (i : Uuid) × IsEntered s.rows
        (draft_entry c env p i journal period.id (debit_sum p.lines) (credit_sum p.lines))
        (stored_lines i resolved)
        (u.0)
        (u.1.rows)
unfolding enter_resolved
enter_resolved_inv c env p period resolved s {u} h =
    let i = env.uuid7 s.drawn in
    let draft : Uuid → JournalEntry =
      λ j. draft_entry c env p i j period.id (debit_sum p.lines) (credit_sum p.lines) in
    let rows = stored_lines i resolved in
    let t : Session Books = record s { drawn = s.drawn + 1 } in
    let (j, _, g) =
      or_raise_inv s.rows.journal (runtime_error "General journal is missing")
        (λ j. new_id env >>= λ i.
          write_entry (draft_entry c env p i j period.id (debit_sum p.lines) (credit_sum p.lines))
            (stored_lines i resolved))
        s h in
    let (number, same, fresh, sides, rows_after, balanced) = write_entry_inv (draft j) rows t g in
    (
      j,
      i,
      record {
        number = number;
        same = same;
        fresh = fresh;
        sides = sides;
        rows_after = rows_after;
        balanced = balanced;
      },
    )

pub enter_inv :
    (c : Context) (env : Env) (p : Posting) (period : FiscalPeriod) (s : Session Books)
    {u : JournalEntry × Session Books}
    → enter c env p period s ≡ ok u
    → (resolved : List (PostingLine × Account)) × (resolve
          (chosen_accounts p.account_map (system_accounts p.lines s.rows.accounts))
          p.lines
        ≡ some resolved)
      × (any_of unusable resolved ≡ false)
      × (enter_resolved c env p period resolved s ≡ ok u)
unfolding enter
enter_inv c env p period s {u} h =
    let (resolved, r, h1) = or_raise_inv _ _ _ s h in
    let (usable, h2) = raise_if_inv _ _ (enter_resolved c env p period resolved) s h1 in
    (resolved, r, usable, h2)

pub enter-IsBooks :
    (c : Context) (env : Env) (p : Posting) (period : FiscalPeriod) (s : Session Books)
    {u : JournalEntry × Session Books}
    → Holds (map_ids p.account_map) s.rows
    → enter c env p period s ≡ ok u
    → IsBooks u.1.rows
unfolding map_ids
enter-IsBooks c env p period s {u} h e =
    let (resolved, r, usable, k) = enter_inv c env p period s e in
    let (_, i, x) = enter_resolved_inv c env p period resolved s k in
    let system_map = system_accounts p.lines s.rows.accounts in
    let chosen = chosen_accounts p.account_map system_map in
    let given : (n : AccountMap) → p.account_map ≡ some n → InChart s.rows.accounts n =
      λ n q. in_chart n s.rows (subst (λ o. HasAccounts (map_ids o) s.rows) q h.1) in
    let chart : InChart s.rows.accounts chosen =
      chosen_in s.rows.accounts p.account_map system_map given
        (system_accounts_in p.lines s.rows.accounts) in
    entered-IsBooks _ _ _ _ _ h.0 (rows_in s.rows.accounts i chosen p.lines resolved chart r) x

pub post_balanced_inv :
    (c : Context) (env : Env) (p : Posting) (s : Session Books) {u : JournalEntry × Session Books}
    → post_balanced c env p s ≡ ok u
    → (period : FiscalPeriod) × (period_for_date p.entry_date s.rows ≡ some period)
      × (t : Session Books) × (require_period c p.allow_closed period s ≡ ok (tt, t))
      × (enter c env p period t ≡ ok u)
unfolding post_balanced
post_balanced_inv c env p s {u} h =
    let (period, found, h1) =
      or_raise_inv (period_for_date p.entry_date s.rows) (conflict "PERIOD_CLOSED")
        (λ period. require_period c p.allow_closed period >> enter c env p period) s h in
    let (_, t, g, h2) =
      bind_inv (require_period c p.allow_closed period) (λ _. enter c env p period) s h1 in
    (period, found, t, g, h2)

pub post_inv :
    (c : Context) (env : Env) (p : Posting) (s : Session Books) {u : JournalEntry × Session Books}
    → post c env p s ≡ ok u
    → (t : Session Books) × (bootstrap env s ≡ ok (tt, t))
      × (is_unbalanced p.lines ≡ false)
      × (post_balanced c env p t ≡ ok u)
unfolding post
post_inv c env p s {u} h =
    let (_, t, b, h1) =
      bind_inv (bootstrap env)
        (λ _.
          raise_if (is_unbalanced p.lines) (domain_validation "UNBALANCED_JOURNAL")
          >> post_balanced c env p)
        s h in
    let (balanced, h2) =
      raise_if_inv (is_unbalanced p.lines) (domain_validation "UNBALANCED_JOURNAL")
        (post_balanced c env p) t h1 in
    (t, b, balanced, h2)

-- A `post` that returns keeps the invariant of the books, where the accounts it is given, if any, are
-- in the chart.
pub post-IsBooks :
    (c : Context) (env : Env) (p : Posting) (s : Session Books) {u : JournalEntry × Session Books}
    → Holds (map_ids p.account_map) s.rows
    → post c env p s ≡ ok u
    → IsBooks u.1.rows
post-IsBooks c env p s {u} h e =
    let (t, b, _, h1) = post_inv c env p s e in
    let held = Keeps-ok s t tt (bootstrap-Holds (map_ids p.account_map) env) h b in
    let (period, _, t2, g, h2) = post_balanced_inv c env p t h1 in
    let same = require_period_rows c p.allow_closed period t g in
    enter-IsBooks c env p period t2 (subst (Holds (map_ids p.account_map)) (sym same) held) h2
