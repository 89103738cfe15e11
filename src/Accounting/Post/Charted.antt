-- ===== src/Accounting/Post/Charted.antt =====
-- The accounts that a posting finds for its lines are accounts of the chart.
use mathlib.Core.Option.{some-injective}
use nexora_ai.Prelude.{
  ◌≡◌, refl, subst, Bool, true, false, Option, none, some, List, [], ◌∷◌, ◌++◌, arith, All, any_of,
  is_some, if◌then◌else◌, String, map,
}
use nexora_ai.Prelude.Groups.{find}
use nexora_ai.Session.{Uuid}
use nexora_ai.Accounting.PostingRules.{Code, system, PostingLine}
use nexora_ai.Accounting.Bootstrap.Kept.{HasAccounts}
use nexora_ai.Accounting.Model.{Account, Books}
use nexora_ai.Accounting.Invariant.{account_id}
use nexora_ai.Accounting.Post.{
  same_code, AccountMap, account_for, system_accounts, chosen_accounts, resolve, stored_lines,
}
use nexora_ai.Accounting.Post.Kept.{IsRow}

-- The accounts of a dictionary stand in a chart.
abbrev pub InChart : List Account → AccountMap → Type 0
InChart accounts m = All (λ e. is_some (find account_id e.1.id accounts) ≡ true) m

-- Every account of a chart is found by its identifier, and so is every system account.
find_self :
    (a : Account) (xs ys : List Account) → is_some (find account_id a.id (xs ++ a ∷ ys)) ≡ true
find_self a [] ys = ground arith
find_self a (x ∷ xs) ys = ground (arith, find_self a xs ys)

InChart-cons :
    (a : Account) (xs : List Account) (m : AccountMap) → InChart xs m → InChart (a ∷ xs) m
InChart-cons a xs [] h = tt
InChart-cons a xs (e ∷ m) h = (ground arith, InChart-cons a xs m h.1)

InChart-if :
    (xs : List Account) (b : Bool) (m n : AccountMap)
    → InChart xs m
    → InChart xs n
    → InChart xs (if b then m else n)
InChart-if xs true m n h k = h
InChart-if xs false m n h k = k

pub system_accounts_in :
    (lines : List PostingLine) (accounts : List Account)
    → InChart accounts (system_accounts lines accounts)
unfolding system_accounts
system_accounts_in lines [] = tt
system_accounts_in lines (a ∷ rest) =
    add a.system_code
      (InChart-cons a rest (system_accounts lines rest) (system_accounts_in lines rest))
  where
    add :
        (o : Option String)
        → InChart (a ∷ rest) (system_accounts lines rest)
        → InChart (a ∷ rest) (elim o [
          | none ↦ system_accounts lines rest
          | some s ↦
              if any_of (λ l. same_code (system s) l.code) lines
              then (system s, a) ∷ system_accounts lines rest
              else system_accounts lines rest
        ])
    add none others = others
    add (some s) others =
        InChart-if (a ∷ rest) (any_of (λ l. same_code (system s) l.code) lines) _ _
          (find_self a [] rest, others) others

account_for_in :
    (accounts : List Account) (code : Code) (m : AccountMap) (a : Account)
    → InChart accounts m
    → account_for code m ≡ some a
    → is_some (find account_id a.id accounts) ≡ true
unfolding account_for
account_for_in accounts code [] a h e = cc
account_for_in accounts code (x ∷ m) a h e = ground (arith, account_for_in accounts code m a h.1)

-- The rows of an entry stand on accounts of the chart.
pub rows_in :
    (accounts : List Account) (i : Uuid) (m : AccountMap) (lines : List PostingLine)
    (resolved : List (PostingLine × Account))
    → InChart accounts m
    → resolve m lines ≡ some resolved
    → All (IsRow accounts i) (stored_lines i resolved)
unfolding resolve
rows_in accounts i m [] resolved h e =
    subst (λ x. All (IsRow accounts i) (stored_lines i x)) (some-injective _ _ e) tt
rows_in accounts i m (l ∷ ls) resolved h e =
    add (account_for l.code m) (resolve m ls) (λ a. account_for_in accounts l.code m a h)
      (λ r. rows_in accounts i m ls r h) e
  where
    add :
        (o : Option Account) (q : Option (List (PostingLine × Account)))
        → ((a : Account) → o ≡ some a → is_some (find account_id a.id accounts) ≡ true)
        → ((r : List (PostingLine × Account))
            → q ≡ some r
            → All (IsRow accounts i) (stored_lines i r))
        → elim o [ none ↦ none | some a ↦ elim q [ none ↦ none | some r ↦ some ((l, a) ∷ r) ] ]
          ≡ some resolved
        → All (IsRow accounts i) (stored_lines i resolved)
    add none q f g e = cc
    add (some a) none f g e = cc
    add (some a) (some r) f g e =
        subst (λ x. All (IsRow accounts i) (stored_lines i x)) (some-injective _ _ e)
          ((f a refl, refl), g r refl)

pub chosen_in :
    (accounts : List Account) (o : Option AccountMap) (m : AccountMap)
    → ((n : AccountMap) → o ≡ some n → InChart accounts n)
    → InChart accounts m
    → InChart accounts (chosen_accounts o m)
chosen_in accounts (some (e ∷ n)) m h k = h (e ∷ n) refl
chosen_in accounts (some []) m h k = k
chosen_in accounts none m h k = k

-- The accounts of the dictionary that a caller passes.
unfoldable pub map_ids : Option AccountMap → List Uuid
map_ids (some m) = map (λ e. e.1.id) m
map_ids none = []

pub in_chart :
    (m : AccountMap) (b : Books) → HasAccounts (map (λ e. e.1.id) m) b → InChart b.accounts m
in_chart [] b h = tt
in_chart (e ∷ m) b h = (h.0, in_chart m b h.1)
