-- ===== src/Accounting/Service/Reversal.antt =====
-- What a reversal does to the ledger: the original no longer counts.
pub mod Again
use mathlib.Core.Option.{some-injective}
use nexora_ai.Prelude.{
  ltb, ◌||◌, ==→eq, ==_refl, String, ◌≡◌, refl, sym, ap, ◌∙◌, subst, Bool, true, false, Option,
  none, some, is_some, List, [], ◌∷◌, ◌++◌, ◌==◌, arith, map, any_of, first, if◌then◌else◌,
  update_where, Bool-cases, inl, inr,
}
use nexora_ai.Prelude.Int.{ℤ, pos, ◌+ℤ◌, ◌-ℤ◌, total, total-append, int_laws, +ℤ_zero}
use nexora_ai.Prelude.Rows.{first-passes, any_of-first, any_of-append, any_of-update}
use nexora_ai.Decimal.{to_money, to_amount}
use nexora_ai.Decimal.Rounding.{to_money-to_amount}
use nexora_ai.Session.{
  Uuid, Date, Context, Env, Session, ok, err, conflict, not_found, domain_validation, bind_inv,
  raise_if, raise_if_inv, or_raise_inv, audit, ◌>>=◌, ◌>>◌,
}
use nexora_ai.Session.Keeps.{Keeps-ok}
use nexora_ai.Accounting.Bootstrap.{bootstrap}
use nexora_ai.Accounting.Model.{Account, JournalEntry, JournalEntryLine, Books, entry, lines_of}
use nexora_ai.Accounting.PostingRules.{Code, system, rev, PostingLine}
use nexora_ai.Accounting.Post.{
  AccountMap, account_for, system_accounts, chosen_accounts, same_code, Posting, resolve,
  stored_lines, post,
}
use nexora_ai.Accounting.Post.Invariant.{
  post_inv, post_balanced_inv, enter_inv, enter_resolved_inv, require_period_rows,
}
use nexora_ai.Accounting.Post.Once.{bootstrap-HasLedger, IsPosting, post-IsPosting}
use nexora_ai.Accounting.Service.{
  exchanged, rev_map, reversal_posting, set_reversal_of, set_reversed_by, link_reversal,
  post_reversal, reverse,
}

-- What lines come to on an account, debits less credits.
abbrev pub balance : Uuid → List JournalEntryLine → ℤ
balance a ls = total (λ l. if a == l.account_id then l.debit -ℤ l.credit else pos 0) ls

-- A dictionary in which the symbol of an account is that account's.
abbrev Named : AccountMap → Type 0
Named m = (k : Uuid) (a : Account) → account_for (rev k) m ≡ some a → a.id ≡ k

rev_map-Named : (accounts : List Account) → Named (rev_map accounts)
unfolding account_for
rev_map-Named [] k a e = cc
rev_map-Named (x ∷ xs) k a e = ground (arith, rev_map-Named xs k a)

system_accounts-Named :
    (lines : List PostingLine) (accounts : List Account) → Named (system_accounts lines accounts)
unfolding system_accounts account_for
system_accounts-Named lines [] k a e = cc
system_accounts-Named lines (x ∷ xs) k a e = ground (arith, system_accounts-Named lines xs k a)

chosen-Named :
    (accounts : List Account) (m : AccountMap)
    → Named m
    → Named (chosen_accounts (some (rev_map accounts)) m)
chosen-Named [] m h = h
chosen-Named (x ∷ xs) m h = rev_map-Named (x ∷ xs)

-- The stored lines of the reversal against those of the original.
balance-exchanged :
    (a j : Uuid) (m : AccountMap) (ls : List JournalEntryLine)
    (resolved : List (PostingLine × Account))
    → Named m
    → resolve m (exchanged ls) ≡ some resolved
    → balance a (stored_lines j resolved) +ℤ balance a ls ≡ pos 0
unfolding resolve
balance-exchanged a j m [] resolved n e =
    subst (λ x. balance a (stored_lines j x) +ℤ pos 0 ≡ pos 0) (some-injective _ _ e)
      (omega int_laws)
balance-exchanged a j m (l ∷ ls) resolved n e =
    add (account_for (rev l.account_id) m) (resolve m (exchanged ls)) (n l.account_id)
      (λ r. balance-exchanged a j m ls r n) e
  where
    line : PostingLine
    line = record {
      code = rev l.account_id;
      debit = to_amount l.credit;
      credit = to_amount l.debit;
    }

    opposite :
        (b : Bool) (x y r s : ℤ)
        → ((if b then x -ℤ y else pos 0) +ℤ r) +ℤ ((if b then y -ℤ x else pos 0) +ℤ s) ≡ r +ℤ s
    opposite true x y r s = omega int_laws
    opposite false x y r s = omega int_laws

    add :
        (o : Option Account) (q : Option (List (PostingLine × Account)))
        → ((x : Account) → o ≡ some x → x.id ≡ l.account_id)
        → ((r : List (PostingLine × Account))
            → q ≡ some r
            → balance a (stored_lines j r) +ℤ balance a ls ≡ pos 0)
        → elim o [ none ↦ none | some x ↦ elim q [ none ↦ none | some r ↦ some ((line, x) ∷ r) ] ]
          ≡ some resolved
        → balance a (stored_lines j resolved) +ℤ balance a (l ∷ ls) ≡ pos 0
    add none q f g e = cc
    add (some x) none f g e = cc
    add (some x) (some r) f g e =
        subst (λ z. balance a (stored_lines j z) +ℤ balance a (l ∷ ls) ≡ pos 0)
          (some-injective _ _ e)
          (rw (f x refl, to_money-to_amount l.credit, to_money-to_amount l.debit)
            (opposite (a == l.account_id) l.credit l.debit _ _ ∙ g r refl))

-- The lines that `post` appends are those of its posting.
post_lines :
    (c : Context) (env : Env) (p : Posting) (s : Session Books) {u : JournalEntry × Session Books}
    → post c env p s ≡ ok u
    → (accounts : List Account) × (resolved : List (PostingLine × Account)) × (i : Uuid) × (resolve
          (chosen_accounts p.account_map (system_accounts p.lines accounts))
          p.lines
        ≡ some resolved)
      × (u.1.rows.lines ≡ s.rows.lines ++ stored_lines i resolved)
post_lines c env p s {u} h =
    let (t, b, _, h1) = post_inv c env p s h in
    let (_, ls) =
      Keeps-ok s t tt (bootstrap-HasLedger s.rows.entries s.rows.lines env) (refl, refl) b in
    let (period, _, t2, g, h2) = post_balanced_inv c env p t h1 in
    let same = require_period_rows c p.allow_closed period t g in
    let (resolved, r, _, k) = enter_inv c env p period t2 h2 in
    let (_, i, x) = enter_resolved_inv c env p period resolved t2 k in
    (
      t2.rows.accounts,
      resolved,
      i,
      r,
      ap (λ (b : Books). b.lines) x.rows_after
          ∙ ap (λ xs. xs ++ stored_lines i resolved) (ap (λ (b : Books). b.lines) same ∙ ls),
    )

-- What `reverse` went through.
pub record IsReversal (c : Context) (env : Env) (i : Uuid) (d : Date) (s : Session Books)
    (u : JournalEntry × Session Books) : Type 0 where
  pub original : JournalEntry
  pub found : entry i s.rows ≡ some original
  pub fresh : is_some original.reversed_by ≡ false
  pub reversal : JournalEntry
  pub after : Session Books
  pub entered :
      post c env (reversal_posting original d (lines_of original.id s.rows) s.rows.accounts) s
      ≡ ok (reversal, after)
  pub linked :
      u.1.rows
      ≡ set_reversed_by original.id reversal.id (set_reversal_of reversal.id original.id after.rows)

link_reversal_rows :
    (i : Uuid) (e : JournalEntry) (s : Session Books) {u : JournalEntry × Session Books}
    → link_reversal i e s ≡ ok u
    → u.1.rows ≡ set_reversed_by i e.id (set_reversal_of e.id i s.rows)
unfolding link_reversal audit
link_reversal_rows i e s h = ground arith

pub reverse_inv :
    (c : Context) (env : Env) (i : Uuid) (d : Date) (s : Session Books)
    {u : JournalEntry × Session Books}
    → reverse c env i d s ≡ ok u
    → IsReversal c env i d s u
unfolding reverse post_reversal
reverse_inv c env i d s {u} h =
    let (original, found, h1) =
      or_raise_inv (entry i s.rows) not_found
        (λ e.
          raise_if (is_some e.reversed_by) (conflict "ENTRY_ALREADY_REVERSED")
          >> (raise_if (ltb d e.entry_date) (domain_validation "INVALID_REVERSAL_DATE")
              >> post_reversal c env e d))
        s h in
    let (fresh, h2) =
      raise_if_inv (is_some original.reversed_by) (conflict "ENTRY_ALREADY_REVERSED")
        (raise_if (ltb d original.entry_date) (domain_validation "INVALID_REVERSAL_DATE")
          >> post_reversal c env original d)
        s h1 in
    let (_, h3) =
      raise_if_inv (ltb d original.entry_date) (domain_validation "INVALID_REVERSAL_DATE")
        (post_reversal c env original d) s h2 in
    let (r, t, p, h4) =
      bind_inv
        (post c env (reversal_posting original d (lines_of original.id s.rows) s.rows.accounts))
        (link_reversal original.id) s h3 in
    record {
      original = original;
      found = found;
      fresh = fresh;
      reversal = r;
      after = t;
      entered = p;
      linked = link_reversal_rows original.id r t h4;
    }

-- When `reverse` returns, every account has the balance that it had without the lines of the
-- original: debits less credits, over all lines of the ledger.
pub reverse-balance :
    (c : Context) (env : Env) (i : Uuid) (d : Date) (s : Session Books)
    {u : JournalEntry × Session Books}
    → reverse c env i d s ≡ ok u
    → (a : Uuid)
    → balance a u.1.rows.lines +ℤ balance a (lines_of i s.rows) ≡ balance a s.rows.lines
unfolding entry
reverse-balance c env i d s {u} h a =
    let x = reverse_inv c env i d s h in
    let o = x.original in
    let is_i : i ≡ o.id = ==→eq i o.id (first-passes (λ e. i == e.id) s.rows.entries o x.found) in
    let old = lines_of o.id s.rows in
    let (accounts, resolved, j, r, ls) =
      post_lines c env (reversal_posting o d old s.rows.accounts) s x.entered in
    let m = system_accounts (exchanged old) accounts in
    let gone =
      balance-exchanged a j (chosen_accounts (some (rev_map s.rows.accounts)) m) old resolved
        (chosen-Named s.rows.accounts m (system_accounts-Named (exchanged old) accounts)) r in
    let grown : u.1.rows.lines ≡ s.rows.lines ++ stored_lines j resolved =
      ap (λ (b : Books). b.lines) x.linked ∙ ls in
    let st = balance a (stored_lines j resolved) in
    ap (λ xs. balance a xs +ℤ balance a (lines_of i s.rows)) grown
    ∙ ap (λ y. y +ℤ balance a (lines_of i s.rows))
        (total-append (λ l. if a == l.account_id then l.debit -ℤ l.credit else pos 0) s.rows.lines
          (stored_lines j resolved))
    ∙ ap (λ k. balance a s.rows.lines +ℤ st +ℤ balance a (lines_of k s.rows)) is_i
    ∙ regroup (balance a s.rows.lines) st (balance a old)
    ∙ ap (λ y. balance a s.rows.lines +ℤ y) gone
    ∙ +ℤ_zero (balance a s.rows.lines)
  where
    regroup : (x y z : ℤ) → x +ℤ y +ℤ z ≡ x +ℤ (y +ℤ z)
    regroup x y z = omega int_laws
