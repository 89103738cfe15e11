-- ===== src/Accounting/Requests.antt =====
-- The calls that reach the books, each in a transaction, one after another.
use nexora_ai.Prelude.{refl, true, any_of, All, ◌==◌, ◌≡◌, List, [], none}
use nexora_ai.Session.{Uuid, Date, Context, Env, Session, Tx, pure, ◌>>=◌}
use nexora_ai.Session.Served.{serve_all, serve_all-Keeps}
use nexora_ai.Session.Keeps.{Keeps, keeps_rules}
use nexora_ai.Accounting.Model.{PeriodStatus, Books}
use nexora_ai.Accounting.Bootstrap.{bootstrap}
use nexora_ai.Accounting.Bootstrap.Kept.{Holds, bootstrap-Holds}
use nexora_ai.Accounting.Invariant.{IsBooks}
use nexora_ai.Accounting.Post.{Posting, post}
use nexora_ai.Accounting.Post.Charted.{map_ids}
use nexora_ai.Accounting.Service.{
  AccountCreate, create_account, PeriodCreate, create_period, change_period_status,
  ManualEntryCreate, post_manual, reverse,
}
use nexora_ai.Accounting.Service.Locked.{Header, IsLockedAs, IsFrozen, in_period}
use nexora_ai.Accounting.Service.Locked.Kept.{
  bootstrap-IsFrozen, create_account-IsFrozen, create_period-IsFrozen, post-IsFrozen,
  change_period_status-IsFrozen, post_manual-IsFrozen, reverse-IsFrozen,
}
use nexora_ai.Accounting.Service.Kept.{
  create_account-Holds, create_period-Holds, change_period_status-Holds, post_manual-Holds,
  post-Holds, reverse-Holds,
}

-- `event_of` is the posting of another module, with the system accounts; a listing bootstraps.
pub data Request : Type 0 where
  listing : Request
  account_of : AccountCreate → Request
  period_of : PeriodCreate → Request
  status_of : Uuid → PeriodStatus → Request
  manual_of : ManualEntryCreate → Request
  reversal_of : Uuid → Date → Request
  event_of : Posting → Request

abbrev pub with_system_accounts : Posting → Posting
with_system_accounts p = record p { account_map = none }

unfoldable pub perform : Context → Env → Request → Tx Books Unit
perform c env listing = bootstrap env
perform c env (account_of q) = create_account env q >>= λ _. pure tt
perform c env (period_of q) = create_period env q >>= λ _. pure tt
perform c env (status_of i status) = change_period_status i status
perform c env (manual_of q) = post_manual c env q >>= λ _. pure tt
perform c env (reversal_of i d) = reverse c env i d >>= λ _. pure tt
perform c env (event_of p) = post c env (with_system_accounts p) >>= λ _. pure tt

abbrev pub serve : List (Context × Env × Request) → Session Books → Session Books
serve = serve_all perform

module _ {P : Books → Type 0} where
  -- What every operation keeps is kept by a request.
  perform-Keeps :
      ((env : Env) → Keeps P (bootstrap env))
      → ((env : Env) (q : AccountCreate) → Keeps P (create_account env q))
      → ((env : Env) (q : PeriodCreate) → Keeps P (create_period env q))
      → ((i : Uuid) (status : PeriodStatus) → Keeps P (change_period_status i status))
      → ((c : Context) (env : Env) (q : ManualEntryCreate) → Keeps P (post_manual c env q))
      → ((c : Context) (env : Env) (i : Uuid) (d : Date) → Keeps P (reverse c env i d))
      → ((c : Context) (env : Env) (p : Posting) → Keeps P (post c env (with_system_accounts p)))
      → (c : Context) (env : Env) (q : Request) → Keeps P (perform c env q)
  unfolding perform
  perform-Keeps k1 k2 k3 k4 k5 k6 k7 c env listing = k1 env
  perform-Keeps k1 k2 k3 k4 k5 k6 k7 c env (account_of q) = search (keeps_rules, k2 env q)
  perform-Keeps k1 k2 k3 k4 k5 k6 k7 c env (period_of q) = search (keeps_rules, k3 env q)
  perform-Keeps k1 k2 k3 k4 k5 k6 k7 c env (status_of i status) = k4 i status
  perform-Keeps k1 k2 k3 k4 k5 k6 k7 c env (manual_of q) = search (keeps_rules, k5 c env q)
  perform-Keeps k1 k2 k3 k4 k5 k6 k7 c env (reversal_of i d) = search (keeps_rules, k6 c env i d)
  perform-Keeps k1 k2 k3 k4 k5 k6 k7 c env (event_of p) = search (keeps_rules, k7 c env p)

event-Holds :
    (c : Context) (env : Env) (p : Posting) → Keeps (Holds []) (post c env (with_system_accounts p))
unfolding map_ids
event-Holds c env p = post-Holds c env (with_system_accounts p)

pub perform-Holds : (c : Context) (env : Env) (q : Request) → Keeps (Holds []) (perform c env q)
perform-Holds =
    perform-Keeps (bootstrap-Holds []) create_account-Holds create_period-Holds
      change_period_status-Holds post_manual-Holds reverse-Holds event-Holds

perform-IsFrozen :
    (i : Uuid) (hs : List Header) (c : Context) (env : Env) (q : Request)
    → Keeps (IsFrozen i hs) (perform c env q)
perform-IsFrozen i hs =
    perform-Keeps (bootstrap-IsFrozen i hs) (create_account-IsFrozen i hs)
      (create_period-IsFrozen i hs) (change_period_status-IsFrozen i hs) (post_manual-IsFrozen i hs)
      (reverse-IsFrozen i hs) (λ c env p. post-IsFrozen i hs c env (with_system_accounts p))

-- Whatever is requested, in any order, and whichever requests fail: account and entry identifiers
-- stay different, every line has one side, an account and an entry, and every entry is posted,
-- balanced and of the totals of its lines, if that holds at the start.
pub serve-IsBooks :
    (qs : List (Context × Env × Request)) (s : Session Books)
    → IsBooks s.rows
    → IsBooks (serve qs s).rows
serve-IsBooks qs s h = (serve_all-Keeps perform perform-Holds qs s (h, tt)).0

-- Once a period is locked, no sequence of requests opens it again or adds, takes away or changes an
-- entry of it: the identifiers, dates and totals of its entries stay what they are.
pub serve-Locked :
    (qs : List (Context × Env × Request)) (s : Session Books) (i : Uuid)
    → any_of (λ p. i == p.id) s.rows.periods ≡ true
    → All (IsLockedAs i) s.rows.periods
    → All (IsLockedAs i) (serve qs s).rows.periods
      × (in_period i (serve qs s).rows.entries ≡ in_period i s.rows.entries)
serve-Locked qs s i stands is_locked =
    let kept =
      serve_all-Keeps perform (perform-IsFrozen i (in_period i s.rows.entries)) qs s
        (record { stands = stands; is_locked = is_locked; entries = refl }) in
    (kept.is_locked, kept.entries)
