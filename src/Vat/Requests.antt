-- ===== src/Vat/Requests.antt =====
-- The calls that reach `VatService`, each in a transaction, one after another.
use nexora_ai.Prelude.{String, ◌≡◌, refl, true, some, List, ◌==◌, first}
use nexora_ai.Session.{Uuid, Date, Context, Env, Session, Result, Tx, ok, err, pure, ◌>>=◌}
use nexora_ai.Session.Served.{serve_all, serve_all-Keeps}
use nexora_ai.Session.Keeps.{Keeps, keeps_rules}
use nexora_ai.Vat.Model.{VatReturn, Register, is_filed}
use nexora_ai.Vat.Register.{
  RateCreate, create_rate, Taxed, record_taxed, PriceQuery, breakdown, rate_on, lift_result,
}
use nexora_ai.Vat.Returns.{prepare_return, file_return}
use nexora_ai.Vat.Filed.{claimed, IsRegister}
use nexora_ai.Vat.Filed.Kept.{create_rate-IsRegister, record_taxed-IsRegister}
use nexora_ai.Vat.Filed.Forever.{
  Stays, create_rate-IsSame, record_taxed-IsSame, prepare_return-IsSame, file_return-IsSame,
}
use nexora_ai.Vat.Filed.Filing.{prepare_return-IsRegister, file_return-IsRegister}

pub data Request : Type 0 where
  rate_of : RateCreate → Request
  price_of : PriceQuery → Request
  taxed_of : Taxed → Request
  prepare_of : Date → Date → Request
  file_of : Uuid → Request

unfoldable pub perform : Context → Env → Request → Tx Register Unit
perform c env (rate_of q) = create_rate env q >>= λ _. pure tt
perform c env (price_of q) = breakdown q >>= λ _. pure tt
perform c env (taxed_of x) = record_taxed env x >>= λ _. pure tt
perform c env (prepare_of start end) = prepare_return env start end >>= λ _. pure tt
perform c env (file_of i) = file_return c env i >>= λ _. pure tt

abbrev pub serve : List (Context × Env × Request) → Session Register → Session Register
serve = serve_all perform

module _ {P : Register → Type 0} where
  Keeps-lift : {A : Type 0} (r : Result A) → Keeps P (lift_result r)
  Keeps-lift (ok a) = record { at = λ s h. h }
  Keeps-lift (err e) = record { at = λ s h. tt }

  rate_on-Keeps : (code : String) (d : Date) → Keeps P (rate_on code d)
  unfolding rate_on
  rate_on-Keeps code d = search keeps_rules

  breakdown-Keeps : (q : PriceQuery) → Keeps P (breakdown q)
  unfolding breakdown
  breakdown-Keeps q = search (keeps_rules, rate_on-Keeps, Keeps-lift) depth 9

  -- A property that the operations keep is kept by a request.
  perform-Keeps :
      ((env : Env) (q : RateCreate) → Keeps P (create_rate env q))
      → ((env : Env) (x : Taxed) → Keeps P (record_taxed env x))
      → ((env : Env) (start end : Date) → Keeps P (prepare_return env start end))
      → ((c : Context) (env : Env) (i : Uuid) → Keeps P (file_return c env i))
      → (c : Context) (env : Env) (q : Request) → Keeps P (perform c env q)
  unfolding perform
  perform-Keeps k l m n c env (rate_of q) = search (keeps_rules, k env q)
  perform-Keeps k l m n c env (price_of q) = search (keeps_rules, breakdown-Keeps q)
  perform-Keeps k l m n c env (taxed_of x) = search (keeps_rules, l env x)
  perform-Keeps k l m n c env (prepare_of start end) = search (keeps_rules, m env start end)
  perform-Keeps k l m n c env (file_of i) = search (keeps_rules, n c env i)

pub perform-IsRegister :
    (c : Context) (env : Env) (q : Request) → Keeps IsRegister (perform c env q)
perform-IsRegister =
    perform-Keeps create_rate-IsRegister record_taxed-IsRegister prepare_return-IsRegister
      file_return-IsRegister

-- Whatever is requested, in any order, and whichever requests fail: return identifiers stay
-- different, and for every return that is filed its five figures are the sums over the rows that
-- carry its identifier, all of which lie in its period, while a draft's identifier and one that no
-- return has stand on no row, if that holds at the start.
pub serve-IsRegister :
    (qs : List (Context × Env × Request)) (s : Session Register)
    → IsRegister s.rows
    → IsRegister (serve qs s).rows
serve-IsRegister = serve_all-Keeps perform perform-IsRegister

-- Once a return is filed, no sequence of requests changes it or the list of the rows that it has
-- claimed, their rates and amounts included.
pub serve-Stays :
    (qs : List (Context × Env × Request)) (s : Session Register) (i : Uuid) (r : VatReturn)
    → is_filed r.status ≡ true
    → first (λ q. i == q.id) s.rows.returns ≡ some r
    → (first (λ q. i == q.id) (serve qs s).rows.returns ≡ some r)
      × (claimed i (serve qs s).rows.transactions ≡ claimed i s.rows.transactions)
serve-Stays qs s i r done found =
    let ts = claimed i s.rows.transactions in
    let kept =
      serve_all-Keeps perform {P = Stays i r ts}
        (perform-Keeps {P = Stays i r ts} (create_rate-IsSame i r ts done)
          (record_taxed-IsSame i r ts done) (prepare_return-IsSame i r ts done)
          (file_return-IsSame i r ts done))
        qs s (record { listed = found; rows = refl }) in
    (kept.listed, kept.rows)
