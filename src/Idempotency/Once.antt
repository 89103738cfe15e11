-- ===== src/Idempotency/Once.antt =====
-- What a key promises: the work of a request is done once, and the key means one request.
use nexora_ai.Prelude.{
  ℕ, String, ◌≡◌, refl, sym, ap, ◌∙◌, subst, Bool, true, false, Option, none, some, List, [], ◌∷◌,
  ◌++◌, arith, str_eq, first, if◌then◌else◌, eq_iff,
}
use nexora_ai.Prelude.Rows.{first-update}
use nexora_ai.Session.{
  pure, Session, Result, ok, err, Tx, domain_validation, bind_inv, bind_ok, bind_err, ◌>>=◌, ◌>>◌,
}
use nexora_ai.Idempotency.{
  IdempotencyKey, Keyed, Claim, is_key, key_row, new_key, claim_or_replay, return_or_work,
  answer_stored, replay_key, claim, completed_key, complete, inside, Endpoint, do_work, answer,
  guarded,
}

str_eq_self : (s : String) → str_eq s s ≡ true
str_eq_self s = ground (arith, eq_iff s s)

first-append_new :
    {A : Type 0} (t : A → Bool) (xs : List A) (y : A)
    → first t xs ≡ none
    → t y ≡ true
    → first t (xs ++ y ∷ []) ≡ some y
first-append_new t [] y n h = rw h refl
first-append_new t (x ∷ xs) y n h = ground (arith, first-append_new t xs y)

module _ {B S : Type 0} where
  -- A key that is claimed stands, with the hash of the body.
  claim_inv :
      (path key hash : String) (s : Session (Keyed B S)) {u : Claim B × Session (Keyed B S)}
      → claim path key hash s ≡ ok u
      → (k : IdempotencyKey B) × (key_row path key u.1.rows ≡ some k)
        × (str_eq k.request_hash hash ≡ true)
  unfolding claim claim_or_replay replay_key
  claim_inv path key hash s {u} h = go (key_row path key s.rows) refl h
    where
      itself : is_key path key (new_key {B = B} path key hash) ≡ true
      itself = rw (str_eq_self path, str_eq_self key) refl

      go :
          (o : Option (IdempotencyKey B))
          → key_row path key s.rows ≡ o
          → claim_or_replay path key hash o s ≡ ok u
          → (k : IdempotencyKey B) × (key_row path key u.1.rows ≡ some k)
            × (str_eq k.request_hash hash ≡ true)
      go none n g =
          let new =
            first-append_new (is_key path key) s.rows.keys (new_key path key hash) n itself in
          (
            new_key path key hash,
            subst (λ (x : Result (Claim B × Session (Keyed B S))). Found x) g new,
            str_eq_self hash,
          )
        where
          Found : Result (Claim B × Session (Keyed B S)) → Type 0
          Found (ok v) = key_row path key v.1.rows ≡ some (new_key path key hash)
          Found (err f) = Unit
      go (some k) f g = (k, ground (arith, f, g), ground (arith, g))

  inside_keys :
      {R : Type 0} (m : Tx S R) (s : Session (Keyed B S)) {u : R × Session (Keyed B S)}
      → inside m s ≡ ok u
      → u.1.rows.keys ≡ s.rows.keys
  inside_keys m s h = ground arith

module _ {P B S R : Type 0} (e : Endpoint P B S R) where
  do_work_inv :
      (key : String) (p : P) (s : Session (Keyed B S)) {u : (R × Bool) × Session (Keyed B S)}
      → do_work e (some key) p s ≡ ok u
      → (k : IdempotencyKey B) → key_row e.path key s.rows ≡ some k
      → key_row e.path key u.1.rows ≡ some (completed_key 201 (e.respond u.0.0) k)
  unfolding do_work complete
  do_work_inv key p s {u} h k f =
      let (r, t, g, h1) =
        bind_inv (inside (e.work p)) (λ r. complete e.path key 201 (e.respond r) >> pure (r, false))
          s h in
      let same = inside_keys (e.work p) s g in
      let after =
        first-update (is_key e.path key) (completed_key 201 (e.respond r)) t.rows.keys k (λ x. refl)
          (ap (first (is_key e.path key)) same ∙ f) in
      subst (λ (x : Result ((R × Bool) × Session (Keyed B S))). Found x) h1 after
    where
      Found : Result ((R × Bool) × Session (Keyed B S)) → Type 0
      Found (ok v) = key_row e.path key v.1.rows ≡ some (completed_key 201 (e.respond v.0.0) k)
      Found (err f) = Unit

  answer_stored_inv :
      (key : String) (p : P) (o : Option B) (s : Session (Keyed B S)) (r : R)
      (t : Session (Keyed B S))
      → answer_stored e key p o s ≡ ok ((r, false), t)
      → (k : IdempotencyKey B) → key_row e.path key s.rows ≡ some k
      → key_row e.path key t.rows ≡ some (completed_key 201 (e.respond r) k)
  unfolding answer_stored return_or_work
  answer_stored_inv key p none s r t h k f = do_work_inv key p s h k f
  answer_stored_inv key p (some b) s r t h k f = go (e.found b s.rows.work) h
    where
      go :
          (o : Option R)
          → return_or_work e key p o s ≡ ok ((r, false), t)
          → key_row e.path key t.rows ≡ some (completed_key 201 (e.respond r) k)
      go none g = do_work_inv key p s g k f
      go (some x) g = cc g

  -- A request that has done its work has left its key completed, with its response.
  guarded_inv :
      (key : String) (p : P) (s : Session (Keyed B S)) (r : R) (t : Session (Keyed B S))
      → str_eq key "" ≡ false
      → guarded e (some key) p s ≡ ok ((r, false), t)
      → (k : IdempotencyKey B) × (key_row e.path key t.rows
          ≡ some (completed_key 201 (e.respond r) k))
        × (str_eq k.request_hash (e.digest p) ≡ true)
  unfolding guarded answer
  guarded_inv key p s r t given h =
      let named : (claim e.path key (e.digest p) >>= answer e key p) s ≡ ok ((r, false), t) =
        subst
          (λ (b : Bool).
            (if b then do_work e none p else (claim e.path key (e.digest p) >>= answer e key p)) s
            ≡ ok ((r, false), t))
          given h in
      let (c, t2, g, h1) = bind_inv (claim e.path key (e.digest p)) (answer e key p) s named in
      let (k, f, same) = claim_inv e.path key (e.digest p) s g in
      (k, answer_stored_inv key p (if c.won then none else c.stored_response) t2 r t h1 k f, same)

  claim_completed :
      (key hash : String) (v : Session (Keyed B S)) (k : IdempotencyKey B) (status : ℕ) (b : B)
      → key_row e.path key v.rows ≡ some (completed_key status b k)
      → str_eq k.request_hash hash ≡ true
      → claim e.path key hash v
        ≡ ok (record { won = false; stored_response = some b; stored_status = some status }, v)
  unfolding claim claim_or_replay replay_key
  claim_completed key hash v k status b f same = rw (f, same) refl

  claim_refused :
      (key hash : String) (v : Session (Keyed B S)) (k : IdempotencyKey B)
      → key_row e.path key v.rows ≡ some k
      → str_eq k.request_hash hash ≡ false
      → claim e.path key hash v ≡ err (domain_validation "IDEMPOTENCY_KEY_REUSE")
  unfolding claim claim_or_replay replay_key
  claim_refused key hash v k f other = rw (f, other) refl

  -- A request with a key has returned a result `r` of its own work. In whatever session the key row
  -- stands as that request left it and the result is still found, the same request with the same
  -- key returns `r` as a replay, and leaves the session as it is.
  pub guarded_again :
      (key : String) (p : P) (s : Session (Keyed B S)) (r : R) (t v : Session (Keyed B S))
      → str_eq key "" ≡ false
      → guarded e (some key) p s ≡ ok ((r, false), t)
      → key_row e.path key v.rows ≡ key_row e.path key t.rows
      → e.found (e.respond r) v.rows.work ≡ some r
      → guarded e (some key) p v ≡ ok ((r, true), v)
  unfolding guarded answer answer_stored return_or_work
  guarded_again key p s r t v given h stands found =
      let (k, f, same) = guarded_inv key p s r t given h in
      let c = claim_completed key (e.digest p) v k 201 (e.respond r) (stands ∙ f) same in
      rw given (bind_ok (claim e.path key (e.digest p)) (answer e key p) c ∙ rw found refl)

  -- After a request with a key has done its work, a request with the same key and a body of another
  -- hash is refused, wherever the key row stands as it was left.
  pub guarded_other :
      (key : String) (p q : P) (s : Session (Keyed B S)) (r : R) (t v : Session (Keyed B S))
      → str_eq key "" ≡ false
      → guarded e (some key) p s ≡ ok ((r, false), t)
      → key_row e.path key v.rows ≡ key_row e.path key t.rows
      → str_eq (e.digest p) (e.digest q) ≡ false
      → guarded e (some key) q v ≡ err (domain_validation "IDEMPOTENCY_KEY_REUSE")
  unfolding guarded
  guarded_other key p q s r t v given h stands differ =
      let (k, f, same) = guarded_inv key p s r t given h in
      let hash : str_eq k.request_hash (e.digest q) ≡ false =
        subst (λ x. str_eq x (e.digest q) ≡ false)
          (sym ((eq_iff k.request_hash (e.digest p)).0 same)) differ in
      let c = claim_refused key (e.digest q) v _ (stands ∙ f) hash in
      rw given (bind_err (claim e.path key (e.digest q)) (answer e key q) c)
