-- ===== src/Accounting/Service/Kept.antt =====
-- Every method of the service keeps the invariant of the books.
use nexora_ai.Prelude.{
  ◌≡◌, sym, ap, ◌∙◌, subst, true, Option, none, some, List, [], ◌==◌, All, is_some,
}
use nexora_ai.Prelude.Groups.{find}
use nexora_ai.Prelude.Rows.{All-select}
use nexora_ai.Session.{Uuid, Date, Context, Env, Session, ok}
use nexora_ai.Session.Keeps.{
  Keeps, Keeps-inv, Keeps-ok, Keeps-modify, Keeps-bind, Keeps-from, Keeps-gets, keeps_rules,
}
use nexora_ai.Accounting.Model.{Account, AccountType, PeriodStatus, JournalEntry, Books, lines_of}
use nexora_ai.Accounting.PostingRules.{manual, rev}
use nexora_ai.Accounting.Bootstrap.{bootstrap}
use nexora_ai.Accounting.Bootstrap.Kept.{
  Holds, bootstrap-Holds, insert_account-Holds, insert_period-Holds, same_books,
}
use nexora_ai.Accounting.Invariant.{account_id}
use nexora_ai.Accounting.Post.{Posting, post}
use nexora_ai.Accounting.Post.Charted.{map_ids}
use nexora_ai.Accounting.Post.Invariant.{
  post_inv, post_balanced_inv, enter_inv, enter_resolved_inv, require_period_rows, post-IsBooks,
}
use nexora_ai.Accounting.Service.{
  AccountCreate, use_parent, create_account, PeriodCreate, create_period, change_period_status,
  ManualEntryCreate, named_accounts, post_named, manual_map, post_manual, rev_map, set_reversal_of,
  set_reversed_by, link_reversal, post_reversal, reverse, reversal_posting, manual_posting,
}
use nexora_ai.Accounting.Service.Columns.{
  close_parent-Holds, Linked-Holds, reversal_of-Linked, reversed_by-Linked, All-found,
  HasAccounts-map,
}

-- The chart that an entry is posted with is the one that `_bootstrap` leaves.
post_accounts :
    (c : Context) (env : Env) (p : Posting) (s : Session Books) {u : JournalEntry × Session Books}
    → post c env p s ≡ ok u
    → (t : Session Books) × (bootstrap env s ≡ ok (tt, t)) × (u.1.rows.accounts ≡ t.rows.accounts)
post_accounts c env p s {u} h =
    let (t, b, _, h1) = post_inv c env p s h in
    let (period, _, t2, g, h2) = post_balanced_inv c env p t h1 in
    let same = require_period_rows c p.allow_closed period t g in
    let (resolved, _, _, k) = enter_inv c env p period t2 h2 in
    let (_, _, x) = enter_resolved_inv c env p period resolved t2 k in
    (t, b, ap (λ (b : Books). b.accounts) x.rows_after ∙ ap (λ (b : Books). b.accounts) same)

pub post-Holds :
    (c : Context) (env : Env) (p : Posting) → Keeps (Holds (map_ids p.account_map)) (post c env p)
post-Holds c env p = Keeps-inv λ s u h e.
    let ids = map_ids p.account_map in
    let (t, b, same) = post_accounts c env p s e in
    let held = Keeps-ok s t tt (bootstrap-Holds ids env) h b in
    (
      post-IsBooks c env p s h e,
      subst (λ xs. All (λ i. is_some (find account_id i xs) ≡ true) ids) (sym same) held.1,
    )

use_parent-Holds :
    (ids : List Uuid) (t : AccountType) (o : Option Uuid) → Keeps (Holds ids) (use_parent t o)
unfolding use_parent
use_parent-Holds ids t none = search keeps_rules
use_parent-Holds ids t (some i) = search (keeps_rules, Keeps-modify, close_parent-Holds)

pub create_account-Holds : (env : Env) (q : AccountCreate) → Keeps (Holds []) (create_account env q)
unfolding create_account
create_account-Holds env q =
    search (keeps_rules, bootstrap-Holds [], use_parent-Holds [], insert_account-Holds []) depth 9

pub create_period-Holds : (env : Env) (q : PeriodCreate) → Keeps (Holds []) (create_period env q)
unfolding create_period
create_period-Holds env q = search (keeps_rules, bootstrap-Holds [], insert_period-Holds []) depth 9

pub change_period_status-Holds :
    (i : Uuid) (status : PeriodStatus) → Keeps (Holds []) (change_period_status i status)
unfolding change_period_status
change_period_status-Holds i status = search (keeps_rules, Keeps-modify, same_books) depth 9

post_named-Holds :
    (c : Context) (env : Env) (q : ManualEntryCreate) (xs : List Account)
    → Keeps (Holds (map_ids (some (manual_map xs)))) (post_named c env q xs)
unfolding post_named
post_named-Holds c env q xs =
    search (keeps_rules, (λ (i : Uuid). post-Holds c env (manual_posting i q xs))) depth 12

pub post_manual-Holds :
    (c : Context) (env : Env) (q : ManualEntryCreate) → Keeps (Holds []) (post_manual c env q)
unfolding post_manual
post_manual-Holds c env q = Keeps-bind _ _ (bootstrap-Holds [] env) λ _.
    Keeps-from (λ xs. Holds (map_ids (some (manual_map xs)))) (named_accounts q.lines)
      (post_named c env q)
      (λ b h. (
        h.0,
        HasAccounts-map manual b (named_accounts q.lines b)
            (All-select _ _ b.accounts (All-found b.accounts)),
      ))
      (λ xs b h. (h.0, tt)) (post_named-Holds c env q)

set_reversal_of-Holds :
    (ids : List Uuid) (i j : Uuid) (b : Books) → Holds ids b → Holds ids (set_reversal_of i j b)
set_reversal_of-Holds ids i j b h = Linked-Holds ids (λ e. i == e.id) _ b (reversal_of-Linked j) h

set_reversed_by-Holds :
    (ids : List Uuid) (i j : Uuid) (b : Books) → Holds ids b → Holds ids (set_reversed_by i j b)
set_reversed_by-Holds ids i j b h = Linked-Holds ids (λ e. i == e.id) _ b (reversed_by-Linked j) h

link_reversal-Holds :
    (ids : List Uuid) (i : Uuid) (e : JournalEntry) → Keeps (Holds ids) (link_reversal i e)
unfolding link_reversal
link_reversal-Holds ids i e =
    search
      (
        keeps_rules,
        Keeps-modify,
        set_reversal_of-Holds ids e.id i,
        set_reversed_by-Holds ids i e.id,
      )
      depth 9

pub post_reversal-Holds :
    (c : Context) (env : Env) (e : JournalEntry) (d : Date)
    → Keeps (Holds []) (post_reversal c env e d)
unfolding post_reversal
post_reversal-Holds c env e d = Keeps-bind _ _ (Keeps-gets (lines_of e.id)) λ old.
    Keeps-from (λ xs. Holds (map_ids (some (rev_map xs)))) (λ b. b.accounts) _
      (λ b h. (h.0, HasAccounts-map rev b b.accounts (All-found b.accounts))) (λ xs b h. (h.0, tt))
      (λ xs.
        Keeps-bind _ _ (post-Holds c env (reversal_posting e d old xs))
          (λ r. link_reversal-Holds (map_ids (some (rev_map xs))) e.id r))

pub reverse-Holds :
    (c : Context) (env : Env) (i : Uuid) (d : Date) → Keeps (Holds []) (reverse c env i d)
unfolding reverse
reverse-Holds c env i d = search (keeps_rules, post_reversal-Holds) depth 9
