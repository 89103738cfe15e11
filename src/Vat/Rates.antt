-- ===== src/Vat/Rates.antt =====
-- Rate resolution: by date, so that a rate that starts later restates nothing.
use nexora_ai.Prelude.{
  String, ◌≤◌, ◌<◌, ◌≡◌, ◌⊎◌, refl, ap, ◌∙◌, true, false, Option, none, some, List, [], ◌∷◌, ◌++◌,
  leb, arith, All, select_where, if◌then◌else◌, Bool-cases, inl, inr, str_eq, ◌+◌,
}
use nexora_ai.Session.{
  Date, Env, Session, Result, ok, err, not_found, permission_denied, conflict, domain_validation,
  runtime_error, value_error, integrity_error, database_error, audit, Tx, new_id, pure, bind_inv,
  ◌>>=◌, ◌>>◌,
}
use nexora_ai.Vat.Model.{VatRate, Register, insert_rate}
use nexora_ai.Vat.Register.{
  in_force, later_rate, latest, rate_in, RateCreate, new_rate, create_rate, except_code,
}

abbrev pub Among : VatRate → List VatRate → Type 0
Among r [] = ⊥
Among r (q ∷ qs) = (r ≡ q) ⊎ Among r qs

-- What the resolution of a code on a date promises of the rates that there are.
abbrev pub Resolves : String → Date → List VatRate → Option VatRate → Type 0
Resolves code d rates none = All (λ q. in_force code d q ≡ false) rates
Resolves code d rates (some r) =
    Among r rates
    × (in_force code d r ≡ true)
    × All (λ q. in_force code d q ≡ true → q.valid_from ≤ r.valid_from) rates

All-weaken :
    (code : String) (d : Date) (r q : VatRate) (rates : List VatRate)
    → r.valid_from ≤ q.valid_from
    → All (λ x. in_force code d x ≡ true → x.valid_from ≤ r.valid_from) rates
    → All (λ x. in_force code d x ≡ true → x.valid_from ≤ q.valid_from) rates
All-weaken code d r q [] l h = tt
All-weaken code d r q (x ∷ rates) l h =
    (λ f. omega (arith, h.0 f), All-weaken code d r q rates l h.1)

All-none :
    (code : String) (d : Date) (q : VatRate) (rates : List VatRate)
    → All (λ x. in_force code d x ≡ false) rates
    → All (λ x. in_force code d x ≡ true → x.valid_from ≤ q.valid_from) rates
All-none code d q [] h = tt
All-none code d q (x ∷ rates) h = (λ f. cc (h.0, f), All-none code d q rates h.1)

Resolves-cons :
    (code : String) (d : Date) (q : VatRate) (rates : List VatRate) (o : Option VatRate)
    → in_force code d q ≡ true
    → Resolves code d rates o
    → Resolves code d (q ∷ rates) (later_rate q o)
Resolves-cons code d q rates none f h =
    (inl refl, f, ((λ _. omega arith), All-none code d q rates h))
Resolves-cons code d q rates (some r) f h = elim (Bool-cases (leb r.valid_from q.valid_from)) [
  | inl e ↦
      rw e (inl refl, f, ((λ _. omega arith), All-weaken code d r q rates (ground (arith, e)) h.2))
  | inr e ↦ rw e (inr h.0, h.1, ((λ _. ground (arith, e)), h.2))
]

Resolves-skip :
    (code : String) (d : Date) (q : VatRate) (rates : List VatRate) (o : Option VatRate)
    → in_force code d q ≡ false
    → Resolves code d rates o
    → Resolves code d (q ∷ rates) o
Resolves-skip code d q rates none f h = (f, h)
Resolves-skip code d q rates (some r) f h = (inr h.0, h.1, ((λ g. cc (f, g)), h.2))

-- On every date and for every code: a rate that the resolution finds is one of the rates, is of the
-- code and in force on the date, and no other such rate starts after it; where it finds none, no
-- rate is in force.
pub rate_in-Resolves :
    (code : String) (d : Date) (rates : List VatRate) → Resolves code d rates (rate_in code d rates)
unfolding rate_in
rate_in-Resolves code d [] = tt
rate_in-Resolves code d (q ∷ rates) = elim (Bool-cases (in_force code d q)) [
  | inl e ↦ rw e (
      Resolves-cons code d q rates (latest (select_where (in_force code d) rates)) e
        (rate_in-Resolves code d rates))
  | inr e ↦ rw e (
      Resolves-skip code d q rates (latest (select_where (in_force code d) rates)) e
        (rate_in-Resolves code d rates))
]

select-append_later :
    (code : String) (d : Date) (rates : List VatRate) (q : VatRate)
    → d < q.valid_from
    → select_where (in_force code d) (rates ++ q ∷ []) ≡ select_where (in_force code d) rates
select-append_later code d [] q l = ground arith
select-append_later code d (r ∷ rates) q l = ground (arith, select-append_later code d rates q)

insert_rate_inv :
    (r : VatRate) (s : Session Register) {u : Unit × Session Register}
    → insert_rate r s ≡ ok u
    → u.1.rows.rates ≡ s.rows.rates ++ r ∷ []
unfolding insert_rate
insert_rate_inv r s h = ground arith

except_code_inv :
    {A : Type 0} (m : Tx Register A) (s : Session Register) {u : A × Session Register}
    → except_code m s ≡ ok u
    → m s ≡ ok u
except_code_inv {A} m s {u} h = go (m s) h
  where
    go :
        (r : Result (A × Session Register))
        → elim r [
          | ok x ↦ ok x
          | err (integrity_error name) ↦
              if str_eq name "code"
              then err (conflict "DUPLICATE_RESOURCE")
              else err (integrity_error name)
          | err f ↦ err f
        ]
          ≡ ok u
        → r ≡ ok u
    go (ok x) e = e
    go (err not_found) e = cc
    go (err (permission_denied c)) e = cc
    go (err (conflict c)) e = cc
    go (err (domain_validation c)) e = cc
    go (err (runtime_error c)) e = cc
    go (err (value_error c)) e = cc
    go (err (database_error c)) e = cc
    go (err (integrity_error c)) e = ground (arith, e)

create_rate_inv :
    (env : Env) (q : RateCreate) (s : Session Register) {u : VatRate × Session Register}
    → create_rate env q s ≡ ok u
    → u.1.rows.rates ≡ s.rows.rates ++ new_rate (env.uuid7 s.drawn) q ∷ []
unfolding create_rate audit
create_rate_inv env q s {u} h =
    let i = env.uuid7 s.drawn in
    let r = new_rate i q in
    let t : Session Register = record s { drawn = s.drawn + 1 } in
    let e =
      except_code_inv
        (new_id env >>= λ i.
          insert_rate (new_rate i q)
          >> (audit "vat.rate_created" "vat_rate" (some i) >> pure (new_rate i q)))
        s h in
    let (_, x, p, e1) =
      bind_inv (insert_rate r) (λ _. audit "vat.rate_created" "vat_rate" (some i) >> pure r) t e in
    let same : u.1.rows ≡ x.rows = ground arith in
    ap (λ (b : Register). b.rates) same ∙ insert_rate_inv r t p

-- A rate that is created to start after a date changes the resolution of no code on that date.
pub create_rate_later :
    (env : Env) (q : RateCreate) (s : Session Register) (code : String) (d : Date)
    {u : VatRate × Session Register}
    → create_rate env q s ≡ ok u
    → d < q.valid_from
    → rate_in code d u.1.rows.rates ≡ rate_in code d s.rows.rates
unfolding rate_in
create_rate_later env q s code d {u} h l =
    ap (λ rates. latest (select_where (in_force code d) rates)) (create_rate_inv env q s h)
    ∙ ap latest (select-append_later code d s.rows.rates (new_rate (env.uuid7 s.drawn) q) l)
