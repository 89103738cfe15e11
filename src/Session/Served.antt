-- ===== src/Session/Served.antt =====
-- Requests one after another, each in a transaction of its own: what is committed after them,
-- whatever each of them answers.
use nexora_ai.Prelude.{List, [], ◌∷◌}
use nexora_ai.Session.{Context, Env, Session, Tx, service_transaction}
use nexora_ai.Session.Keeps.{Keeps, service_transaction-Keeps}

module _ {S Q : Type 0} (perform : Context → Env → Q → Tx S Unit) where
  unfoldable pub serve_all : List (Context × Env × Q) → Session S → Session S
  serve_all [] s = s
  serve_all ((c, env, q) ∷ qs) s = serve_all qs (service_transaction (perform c env q) s).1

  -- What every request keeps is kept by all of them.
  pub serve_all-Keeps :
      {P : S → Type 0}
      → ((c : Context) (env : Env) (q : Q) → Keeps P (perform c env q))
      → (qs : List (Context × Env × Q)) (s : Session S) → P s.rows
      → P (serve_all qs s).rows
  unfolding serve_all
  serve_all-Keeps k [] s h = h
  serve_all-Keeps {P} k ((c, env, q) ∷ qs) s h =
      serve_all-Keeps {P = P} k qs (service_transaction (perform c env q) s).1
        (service_transaction-Keeps (perform c env q) s (k c env q) h)
