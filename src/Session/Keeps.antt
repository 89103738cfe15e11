-- ===== src/Session/Keeps.antt =====
-- Invariants of the rows, one rule for each way to build a method.
use nexora_ai.Prelude.{
  ◌≡◌, refl, subst, Bool, true, false, Option, none, some, if◌then◌else◌, String,
}
use nexora_ai.Session.{
  except_integrity, not_found, permission_denied, conflict, domain_validation, runtime_error,
  value_error, integrity_error, database_error, Uuid, Env, Failure, Result, ok, err, Session, Tx,
  ◌>>=◌, ◌>>◌, pure, raise, raise_if, or_raise, gets, modify, new_id, audit, service_transaction,
}

-- What a method leaves behind, if it returns.
abbrev pub Ensures : {S A : Type 0} → (S → Type 0) → Result (A × Session S) → Type 0
Ensures P (ok (a, t)) = P t.rows
Ensures P (err e) = Unit

pub record Keeps {S A : Type 0} (P : S → Type 0) (m : Tx S A) : Type 0 where
  pub at : (s : Session S) → P s.rows → Ensures P (m s)

guarded :
    {S : Type 0} (P : S → Type 0) (t : Bool) (e : Failure) (g : S → S) (s : Session S)
    → P s.rows
    → (t ≡ false → P (g s.rows))
    → Ensures P ((raise_if t e >> modify g) s)
guarded P true e g s h k = tt
guarded P false e g s h k = k refl

module _ {S : Type 0} {P : S → Type 0} where
  pub Keeps-pure : {A : Type 0} (a : A) → Keeps P (pure {S = S} a)
  Keeps-pure a = record { at = λ s h. h }

  pub Keeps-raise : {A : Type 0} (e : Failure) → Keeps P (raise {S = S} {A = A} e)
  Keeps-raise e = record { at = λ s h. tt }

  pub Keeps-raise_if : (b : Bool) (e : Failure) → Keeps P (raise_if {S = S} b e)
  Keeps-raise_if true e = record { at = λ s h. tt }
  Keeps-raise_if false e = record { at = λ s h. h }

  pub Keeps-or_raise : {A : Type 0} (o : Option A) (e : Failure) → Keeps P (or_raise {S = S} o e)
  Keeps-or_raise none e = record { at = λ s h. tt }
  Keeps-or_raise (some a) e = record { at = λ s h. h }

  pub Keeps-gets : {A : Type 0} (f : S → A) → Keeps P (gets f)
  Keeps-gets f = record { at = λ s h. h }

  pub Keeps-modify : (f : S → S) → ((b : S) → P b → P (f b)) → Keeps P (modify f)
  Keeps-modify f k = record { at = λ s h. k s.rows h }

  pub Keeps-new_id : (env : Env) → Keeps P (new_id {S = S} env)
  Keeps-new_id env = record { at = λ s h. h }

  pub Keeps-audit : (a r : String) (i : Option Uuid) → Keeps P (audit {S = S} a r i)
  unfolding audit
  Keeps-audit a r i = record { at = λ s h. h }

  -- An insert or an update behind a test of the rows.
  pub Keeps-guarded :
      (f : S → Bool) (e : Failure) (g : S → S)
      → ((b : S) → P b → f b ≡ false → P (g b))
      → Keeps P (gets f >>= λ t. raise_if t e >> modify g)
  Keeps-guarded f e g k = record { at = λ s h. guarded P (f s.rows) e g s h (k s.rows h) }

  pub Keeps-if :
      {A : Type 0} (b : Bool) (m n : Tx S A) → Keeps P m → Keeps P n → Keeps P (if b then m else n)
  Keeps-if true m n km kn = km
  Keeps-if false m n km kn = kn

module _ {S A B : Type 0} {P : S → Type 0} where
  Ensures-bind :
      (r : Result (A × Session S)) (f : A → Tx S B)
      → Ensures P r
      → ((a : A) → Keeps P (f a))
      → Ensures P (elim r [ err e ↦ err e | ok (a, t) ↦ f a t ])
  Ensures-bind (ok (a, t)) f h k = (k a).at t h
  Ensures-bind (err e) f h k = tt

  pub Keeps-bind :
      (m : Tx S A) (f : A → Tx S B) → Keeps P m → ((a : A) → Keeps P (f a)) → Keeps P (m >>= f)
  Keeps-bind m f km kf = record { at = λ s h. Ensures-bind (m s) f (km.at s h) kf }

Ensures-except :
    {S A : Type 0} (P : S → Type 0) (e : Failure) (m : Tx S A) (s : Session S)
    → Ensures P (m s)
    → Ensures P (except_integrity e m s)
Ensures-except {S} {A} P e m s h = go (m s) h
  where
    go :
        (r : Result (A × Session S))
        → Ensures P r
        → Ensures P (elim r [ ok u ↦ ok u | err (integrity_error name) ↦ err e | err f ↦ err f ])
    go (ok u) k = k
    go (err not_found) k = tt
    go (err (permission_denied c)) k = tt
    go (err (conflict c)) k = tt
    go (err (domain_validation c)) k = tt
    go (err (runtime_error c)) k = tt
    go (err (value_error c)) k = tt
    go (err (database_error c)) k = tt
    go (err (integrity_error c)) k = tt

pub Keeps-except :
    {S A : Type 0} {P : S → Type 0} (e : Failure) (m : Tx S A)
    → Keeps P m
    → Keeps P (except_integrity e m)
Keeps-except {P = P} e m k = record { at = λ s h. Ensures-except P e m s (k.at s h) }

-- An invariant that a method keeps holds where it returns.
pub Keeps-ok :
    {S A : Type 0} {P : S → Type 0} {m : Tx S A} (s t : Session S) (a : A)
    → Keeps P m
    → P s.rows
    → m s ≡ ok (a, t)
    → P t.rows
Keeps-ok {P = P} s t a k h e = subst (Ensures P) e (k.at s h)

pub Keeps-inv :
    {S A : Type 0} {P : S → Type 0} {m : Tx S A}
    → ((s : Session S) (u : A × Session S) → P s.rows → m s ≡ ok u → P u.1.rows)
    → Keeps P m
Keeps-inv {S} {A} {P = P} {m = m} f = record { at = λ s h. go s (m s) refl h }
  where
    go : (s : Session S) (r : Result (A × Session S)) → m s ≡ r → P s.rows → Ensures P r
    go s (ok u) e h = f s u h e
    go s (err x) e h = tt

Ensures-map :
    {S A : Type 0} (P Q : S → Type 0) (r : Result (A × Session S))
    → ((b : S) → P b → Q b)
    → Ensures P r
    → Ensures Q r
Ensures-map P Q (ok (a, t)) f h = f t.rows h
Ensures-map P Q (err e) f h = tt

-- What is read at the start may be put into the invariant of the rest.
pub Keeps-from :
    {S A B : Type 0} {P : S → Type 0} (Q : A → S → Type 0) (f : S → A) (g : A → Tx S B)
    → ((b : S) → P b → Q (f b) b)
    → ((a : A) (b : S) → Q a b → P b)
    → ((a : A) → Keeps (Q a) (g a))
    → Keeps P (gets f >>= g)
Keeps-from {P = P} Q f g i o k = record {
  at = λ s h.
      Ensures-map (Q (f s.rows)) P (g (f s.rows) s) (o (f s.rows))
        ((k (f s.rows)).at s (i s.rows h));
}

pub ruleset keeps_rules = (
  Keeps-pure, Keeps-raise, Keeps-raise_if, Keeps-or_raise, Keeps-gets, Keeps-new_id, Keeps-audit,
  Keeps-if, Keeps-bind, Keeps-except,
)

-- An exception leaves what was committed.
pub rolled_back :
    {S A : Type 0} (m : Tx S A) (s : Session S) (e : Failure)
    → m s ≡ err e
    → service_transaction m s ≡ (err e, s)
unfolding service_transaction
rolled_back m s e h = rw (h, service_transaction) refl

-- What a method that returns leaves is committed.
pub committed :
    {S A : Type 0} (m : Tx S A) (s : Session S) {t : Session S} {a : A}
    → m s ≡ ok (a, t)
    → service_transaction m s ≡ (ok a, t)
unfolding service_transaction
committed m s h = rw (h, service_transaction) refl

-- Committed or rolled back, a transaction leaves what its method keeps.
pub service_transaction-Keeps :
    {S A : Type 0} {P : S → Type 0} (m : Tx S A) (s : Session S)
    → Keeps P m
    → P s.rows
    → P (service_transaction m s).1.rows
unfolding service_transaction
service_transaction-Keeps {S} {A} {P = P} m s k h = go (m s) (k.at s h)
  where
    go :
        (r : Result (A × Session S))
        → Ensures P r
        → P (
            let out : Result A × Session S = elim r [
              | err e ↦ (err e, s)
              | ok (a, t) ↦ (ok a, t)
            ] in
            out.1.rows)
    go (ok (a, t)) e = e
    go (err x) e = h
