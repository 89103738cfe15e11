-- ===== src/Session/Takes.antt =====
-- Conditions before and after a method, and a service that works on a part of the rows.
use nexora_ai.Prelude.{Bool, true, false, ◌≡◌, refl, Option, none, some}
use nexora_ai.Session.{
  Failure, Session, Result, Tx, ok, err, raise_if, or_raise, gets, modify, within, ◌>>=◌, ◌>>◌,
}
use nexora_ai.Session.Keeps.{Keeps, Ensures}

-- What a method makes of one condition, where it returns.
pub record Takes {S A : Type 0} (P Q : S → Type 0) (m : Tx S A) : Type 0 where
  pub at : (s : Session S) → P s.rows → Ensures Q (m s)

module _ {S : Type 0} {P : S → Type 0} where
  pub Takes-Keeps : {A : Type 0} (m : Tx S A) → Takes P P m → Keeps P m
  Takes-Keeps m k = record { at = k.at }

  pub Keeps-Takes : {A : Type 0} (m : Tx S A) → Keeps P m → Takes P P m
  Keeps-Takes m k = record { at = k.at }

module _ {S : Type 0} {P Q : S → Type 0} where
  pub Takes-modify : (f : S → S) → ((b : S) → P b → Q (f b)) → Takes P Q (modify f)
  Takes-modify f k = record { at = λ s h. k s.rows h }

  -- A step that keeps what is known, before the rest.
  pub Takes-after :
      {A B : Type 0} (m : Tx S A) (f : A → Tx S B)
      → Keeps P m
      → ((a : A) → Takes P Q (f a))
      → Takes P Q (m >>= f)
  Takes-after {A} {B} m f km kf = record { at = λ s h. go (m s) (km.at s h) }
    where
      go :
          (r : Result (A × Session S))
          → Ensures P r
          → Ensures Q (elim r [ err e ↦ err e | ok (a, t) ↦ f a t ])
      go (ok (a, t)) h = (kf a).at t h
      go (err e) h = tt

  pub Takes-then :
      {A B : Type 0} (R : S → Type 0) (m : Tx S A) (f : A → Tx S B)
      → Takes P R m
      → ((a : A) → Takes R Q (f a))
      → Takes P Q (m >>= f)
  Takes-then {A} {B} R m f km kf = record { at = λ s h. go (m s) (km.at s h) }
    where
      go :
          (r : Result (A × Session S))
          → Ensures R r
          → Ensures Q (elim r [ err e ↦ err e | ok (a, t) ↦ f a t ])
      go (ok (a, t)) h = (kf a).at t h
      go (err e) h = tt

  -- A guard that lets the rest run was false.
  pub Takes-guard :
      {A : Type 0} (b : Bool) (e : Failure) (m : Tx S A)
      → (b ≡ false → Takes P Q m)
      → Takes P Q (raise_if b e >> m)
  Takes-guard true e m k = record { at = λ s h. tt }
  Takes-guard false e m k = record { at = (k refl).at }

  -- A row that is read and must be there.
  pub Takes-found :
      {A B : Type 0} (f : S → Option A) (e : Failure) (g : A → Tx S B)
      → ((a : A) → Takes (λ b. P b × (f b ≡ some a)) Q (g a))
      → Takes P Q (gets f >>= λ o. or_raise o e >>= g)
  Takes-found {A} {B} f e g k = record { at = λ s h. go s (f s.rows) refl h }
    where
      go :
          (s : Session S) (o : Option A)
          → f s.rows ≡ o
          → P s.rows
          → Ensures Q ((or_raise o e >>= g) s)
      go s none r h = tt
      go s (some a) r h = (k a).at s (h, r)

  pub Takes-weaken :
      {A : Type 0} (R : S → Type 0) (m : Tx S A) → ((b : S) → R b → P b) → Takes P Q m → Takes R Q m
  Takes-weaken R m k t = record { at = λ s h. t.at s (k s.rows h) }

module _ {S T : Type 0} (get : S → T) (set : T → S → S) (P Q : T → Type 0) (R Z : S → Type 0)
    (enter : (b : S) → R b → P (get b)) (leave : (t : T) (b : S) → R b → Q t → Z (set t b)) where
  pub Takes-within : {A : Type 0} (m : Tx T A) → Takes P Q m → Takes R Z (within get set m)
  Takes-within {A} m k = record {
    at = λ s h.
        go s h
          (m (record {
            rows = get s.rows;
            sequences = s.sequences;
            audit_rows = s.audit_rows;
            drawn = s.drawn;
          }))
          (k.at
            (record {
              rows = get s.rows;
              sequences = s.sequences;
              audit_rows = s.audit_rows;
              drawn = s.drawn;
            })
            (enter s.rows h));
  }
    where
      go :
          (s : Session S)
          → R s.rows
          → (r : Result (A × Session T)) → Ensures Q r
          → Ensures Z (elim r [
            | err e ↦ err e
            | ok (a, t) ↦ ok (
              a,
              record {
                rows = set t.rows s.rows;
                sequences = t.sequences;
                audit_rows = t.audit_rows;
                drawn = t.drawn;
              },
            )
          ])
      go s h (ok (a, t)) q = leave t.rows s.rows h q
      go s h (err e) q = tt
