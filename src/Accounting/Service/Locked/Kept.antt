-- ===== src/Accounting/Service/Locked/Kept.antt =====
-- No method of the service changes a locked period or posts into it.
use nexora_ai.Prelude.{
  refl, sym, ap, ◌∙◌, subst, Bool, ◌||◌, Option, none, some, List, [], ◌∷◌, ◌==◌, All-append,
  update_where,
}
use nexora_ai.Prelude.Rows.{All-first, All-update, any_of-append, any_of-update}
use nexora_ai.Session.{Uuid, Date, Context, Env}
use nexora_ai.Session.Keeps.{Keeps, Keeps-inv, Keeps-ok, Keeps-modify, Keeps-guarded, keeps_rules}
use nexora_ai.Accounting.Model.{
  Account, AccountType, PeriodStatus, FiscalPeriod, contains_date, period_for_date, JournalEntry,
  Books, insert_account, insert_period,
}
use nexora_ai.Accounting.Bootstrap.{bootstrap}
use nexora_ai.Accounting.Bootstrap.Kept.{bootstrap-Keeps}
use nexora_ai.Accounting.Post.{Posting, post}
use nexora_ai.Accounting.Post.Once.{takes}
use nexora_ai.Accounting.Post.Invariant.{
  post_inv, post_balanced_inv, enter_inv, enter_resolved_inv, require_period_rows,
}
use nexora_ai.Accounting.Service.{
  AccountCreate, close_parent, use_parent, create_account, PeriodCreate, create_period,
  change_period_status, ManualEntryCreate, post_named, post_manual, link_reversal, post_reversal,
  reverse,
}
use nexora_ai.Accounting.Service.Locked.{
  Header, IsLockedAs, IsFrozen, Alike, in_period-append, in_period-update, insert_period_inv,
  change_period_status_inv, another_id, no_change, no_posting,
}

module _ (i : Uuid) (ids : List Header) where
  insert_account-IsFrozen : (a : Account) → Keeps (IsFrozen i ids) (insert_account a)
  unfolding insert_account
  insert_account-IsFrozen a =
      Keeps-guarded _ _ _
        λ b h _. record { stands = h.stands; is_locked = h.is_locked; entries = h.entries }

  insert_period-IsFrozen : (p : FiscalPeriod) → Keeps (IsFrozen i ids) (insert_period p)
  unfolding insert_period
  insert_period-IsFrozen p = Keeps-inv λ s u h e.
      let (new, same) = insert_period_inv p s e in
      let n = another_id i p s.rows.periods new h.stands in
      subst (IsFrozen i ids) (sym same) (record {
        stands =
            any_of-append (λ q. i == q.id) s.rows.periods p ∙ ap (λ b. b || i == p.id) h.stands;
        is_locked =
            All-append (IsLockedAs i) s.rows.periods (p ∷ []) h.is_locked ((λ k. cc (n, k)), tt);
        entries = h.entries;
      })

  pub bootstrap-IsFrozen : (env : Env) → Keeps (IsFrozen i ids) (bootstrap env)
  bootstrap-IsFrozen =
      bootstrap-Keeps insert_account-IsFrozen insert_period-IsFrozen
        λ j b h. record { stands = h.stands; is_locked = h.is_locked; entries = h.entries }

  close_parent-IsFrozen :
      (j : Uuid) (b : Books) → IsFrozen i ids b → IsFrozen i ids (close_parent j b)
  close_parent-IsFrozen j b h = record {
    stands = h.stands;
    is_locked = h.is_locked;
    entries = h.entries;
  }

  use_parent-IsFrozen :
      (t : AccountType) (o : Option Uuid) → Keeps (IsFrozen i ids) (use_parent t o)
  unfolding use_parent
  use_parent-IsFrozen t none = search keeps_rules
  use_parent-IsFrozen t (some j) = search (keeps_rules, Keeps-modify, close_parent-IsFrozen)

  pub create_account-IsFrozen :
      (env : Env) (q : AccountCreate) → Keeps (IsFrozen i ids) (create_account env q)
  unfolding create_account
  create_account-IsFrozen env q =
      search (keeps_rules, bootstrap-IsFrozen, use_parent-IsFrozen, insert_account-IsFrozen) depth 9

  pub create_period-IsFrozen :
      (env : Env) (q : PeriodCreate) → Keeps (IsFrozen i ids) (create_period env q)
  unfolding create_period
  create_period-IsFrozen env q =
      search (keeps_rules, bootstrap-IsFrozen, insert_period-IsFrozen) depth 9

  pub change_period_status-IsFrozen :
      (j : Uuid) (status : PeriodStatus) → Keeps (IsFrozen i ids) (change_period_status j status)
  unfolding change_period_status
  change_period_status-IsFrozen j status = Keeps-inv λ s u h e.
      let (p, found, legal, same) = change_period_status_inv j status s e in
      let f : FiscalPeriod → FiscalPeriod = λ p. record p { status = status } in
      let (k, a) = All-first (IsLockedAs i) (λ p. j == p.id) s.rows.periods p h.is_locked found in
      subst (IsFrozen i ids) (sym same) (record {
        stands =
            any_of-update (λ p. i == p.id) (λ p. j == p.id) f s.rows.periods (λ x. refl) ∙ h.stands;
        is_locked =
            All-update (IsLockedAs i) (IsLockedAs i) (λ p. j == p.id) f s.rows.periods
              (λ x b _ e. cc (no_change i j status p x legal k a b, e)) (λ x _ k. k) h.is_locked;
        entries = h.entries;
      })

  pub post-IsFrozen :
      (c : Context) (env : Env) (p : Posting) → Keeps (IsFrozen i ids) (post c env p)
  unfolding period_for_date
  post-IsFrozen c env p = Keeps-inv λ s u h e.
      let (t, b, _, h1) = post_inv c env p s e in
      let g = Keeps-ok s t tt (bootstrap-IsFrozen env) h b in
      let (q, found, t2, r, h2) = post_balanced_inv c env p t h1 in
      let same = require_period_rows c p.allow_closed q t r in
      let (resolved, _, _, k) = enter_inv c env p q t2 h2 in
      let (_, _, x) = enter_resolved_inv c env p q resolved t2 k in
      let k2 = subst (IsFrozen i ids) (sym same) g in
      let (locked_as, _) =
        All-first (IsLockedAs i) (contains_date p.entry_date) t.rows.periods q g.is_locked found in
      let n = no_posting i c p.allow_closed q (takes c p.allow_closed q t r) locked_as in
      subst (IsFrozen i ids) (sym x.rows_after) (record {
        stands = k2.stands;
        is_locked = k2.is_locked;
        entries = in_period-append i t2.rows.entries _ n ∙ k2.entries;
      })

  post_named-IsFrozen :
      (c : Context) (env : Env) (q : ManualEntryCreate) (xs : List Account)
      → Keeps (IsFrozen i ids) (post_named c env q xs)
  unfolding post_named
  post_named-IsFrozen c env q xs = search (keeps_rules, post-IsFrozen) depth 12

  pub post_manual-IsFrozen :
      (c : Context) (env : Env) (q : ManualEntryCreate)
      → Keeps (IsFrozen i ids) (post_manual c env q)
  unfolding post_manual
  post_manual-IsFrozen c env q = search (keeps_rules, bootstrap-IsFrozen, post_named-IsFrozen)

  links-IsFrozen :
      (t : JournalEntry → Bool) (f : JournalEntry → JournalEntry) (b : Books)
      → Alike f
      → IsFrozen i ids b
      → IsFrozen i ids (record b { entries = update_where t f b.entries })
  links-IsFrozen t f b same h = record {
    stands = h.stands;
    is_locked = h.is_locked;
    entries = in_period-update i t f b.entries same ∙ h.entries;
  }

  link_reversal-IsFrozen :
      (j : Uuid) (e : JournalEntry) → Keeps (IsFrozen i ids) (link_reversal j e)
  unfolding link_reversal
  link_reversal-IsFrozen j e =
      search
        (
          keeps_rules,
          Keeps-modify,
          (λ (b : Books).
              links-IsFrozen (λ x. e.id == x.id) (λ x. record x { reversal_of = some j }) b
                (record { its_period = λ x. refl; its_header = λ x. refl })),
          (λ (b : Books).
              links-IsFrozen (λ x. j == x.id) (λ x. record x { reversed_by = some e.id }) b
                (record { its_period = λ x. refl; its_header = λ x. refl })),
        )
        depth 9

  post_reversal-IsFrozen :
      (c : Context) (env : Env) (e : JournalEntry) (d : Date)
      → Keeps (IsFrozen i ids) (post_reversal c env e d)
  unfolding post_reversal
  post_reversal-IsFrozen c env e d =
      search (keeps_rules, post-IsFrozen, link_reversal-IsFrozen) depth 9

  pub reverse-IsFrozen :
      (c : Context) (env : Env) (j : Uuid) (d : Date) → Keeps (IsFrozen i ids) (reverse c env j d)
  unfolding reverse
  reverse-IsFrozen c env j d = search (keeps_rules, post_reversal-IsFrozen) depth 9
