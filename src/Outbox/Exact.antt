-- ===== src/Outbox/Exact.antt =====
-- A drain as one pass over the table: the claim, its order and the updates by identifier left out.
use mathlib.Core.Option.{some-injective}
use mathlib.Core.Path.{ap₂}
use nexora_ai.Prelude.{
  ℕ, zero, suc, ◌+◌, ◌≤◌, ◌≡◌, refl, sym, ap, subst, ◌∙◌, Bool, true, false, ◌||◌, some, List, [],
  ◌∷◌, ◌==◌, arith, All, All-map, any_of, length, map, select_where, update_where, if◌then◌else◌,
  Bool-cases, inl, inr, is_some, ==→eq,
}
use nexora_ai.Prelude.Groups.{Distinct, find}
use nexora_ai.Session.{Env, Session, ok}
use nexora_ai.Outbox.{
  OutboxEvent, Outbox, Settings, Carriers, dispatch, is_due, insert_by_time, by_time, limited,
  claimed, settled, settle_all, count_sent, drain,
}
use nexora_ai.Outbox.Drained.{settled_lem}
use nexora_ai.Outbox.Attempts.{key, found, Ready, claimed-Ready}

-- The pass: every row that is due is settled, and every other row is left alone.
abbrev pub passed : Settings → Carriers → ℕ → OutboxEvent → OutboxEvent
passed s c now e = if is_due s now e then settled c now e else e

module _ (c : Carriers) (now : ℕ) where
  -- What the updates of a batch make of one row.
  settled_by : List OutboxEvent → OutboxEvent → OutboxEvent
  settled_by [] r = r
  settled_by (e ∷ es) r = settled_by es (if e.id == r.id then settled c now e else r)

  map-update :
      (es : List OutboxEvent) (e : OutboxEvent) (rows : List OutboxEvent)
      → map (settled_by es) (update_where (λ r. e.id == r.id) (λ _. settled c now e) rows)
        ≡ map (settled_by (e ∷ es)) rows
  unfolding settled_by
  map-update es e [] = refl
  map-update es e (r ∷ rows) =
      ap (λ l. settled_by es (if e.id == r.id then settled c now e else r) ∷ l)
        (map-update es e rows)

  map_self : (rows : List OutboxEvent) → rows ≡ map (settled_by []) rows
  unfolding settled_by
  map_self [] = refl
  map_self (r ∷ rows) = ap (λ l. r ∷ l) (map_self rows)

  settle_all-map :
      (es rows : List OutboxEvent) → settle_all c now es rows ≡ map (settled_by es) rows
  unfolding settle_all
  settle_all-map [] rows = map_self rows
  settle_all-map (e ∷ es) rows = settle_all-map es _ ∙ map-update es e rows

  -- A batch that has the row of an identifier at most once more.
  IsOnly : OutboxEvent → OutboxEvent → Type 0
  IsOnly r e = (e.id == r.id) ≡ true → e ≡ r

  settled_by-settled :
      (es : List OutboxEvent) (r : OutboxEvent)
      → All (IsOnly r) es
      → settled_by es (settled c now r) ≡ settled c now r
  unfolding settled_by IsOnly
  settled_by-settled [] r h = refl
  settled_by-settled (e ∷ es) r h =
      let same = (settled_lem c now r).0 in
      elim (Bool-cases (e.id == r.id)) [
        | inl k ↦
            let hit = subst (λ j. (e.id == j) ≡ true) (sym same) k in
            rw (hit, h.0 k) (settled_by-settled es r h.1)
        | inr k ↦
            let missed = subst (λ j. (e.id == j) ≡ false) (sym same) k in
            rw missed (settled_by-settled es r h.1)
      ]

  settled_by_lem :
      (es : List OutboxEvent) (r : OutboxEvent)
      → All (IsOnly r) es
      → settled_by es r ≡ (if any_of (λ e. r.id == e.id) es then settled c now r else r)
  unfolding settled_by IsOnly
  settled_by_lem [] r h = refl
  settled_by_lem (e ∷ es) r h = elim (Bool-cases (e.id == r.id)) [
    | inl k ↦
        let back : (r.id == e.id) ≡ true = ground arith in
        rw (k, back, h.0 k) (settled_by-settled es r h.1)
    | inr k ↦
        let back : (r.id == e.id) ≡ false = ground arith in rw (k, back) (settled_by_lem es r h.1)
  ]

-- A batch with room for all that is due.
limited_all : (n : ℕ) (es : List OutboxEvent) → length es ≤ n → limited n es ≡ es
limited_all zero [] h = refl
limited_all zero (e ∷ es) h = absurd (omega arith)
limited_all (suc n) [] h = refl
limited_all (suc n) (e ∷ es) h = ap (λ l. e ∷ l) (limited_all n es (omega arith))

module _ (e : OutboxEvent) where
  length-insert_by_time : (es : List OutboxEvent) → length (insert_by_time e es) ≡ length es + 1
  length-insert_by_time [] = refl
  length-insert_by_time (f ∷ fs) = ground (arith, length-insert_by_time fs)

  any_of-insert_by_time :
      (t : OutboxEvent → Bool) (es : List OutboxEvent)
      → any_of t (insert_by_time e es) ≡ t e || any_of t es
  any_of-insert_by_time t [] = refl
  any_of-insert_by_time t (f ∷ fs) = ground (arith, any_of-insert_by_time t fs)

  count_sent-insert_by_time :
      (c : Carriers) (es : List OutboxEvent)
      → count_sent c (insert_by_time e es) ≡ count_sent c (e ∷ es)
  count_sent-insert_by_time c [] = refl
  count_sent-insert_by_time c (f ∷ fs) = ground (arith, count_sent-insert_by_time c fs)

length-by_time : (es : List OutboxEvent) → length (by_time es) ≡ length es
length-by_time [] = refl
length-by_time (e ∷ es) =
    length-insert_by_time e (by_time es) ∙ ap (λ n. n + 1) (length-by_time es) ∙ omega arith

any_of-by_time :
    (t : OutboxEvent → Bool) (es : List OutboxEvent) → any_of t (by_time es) ≡ any_of t es
any_of-by_time t [] = refl
any_of-by_time t (e ∷ es) =
    any_of-insert_by_time e t (by_time es) ∙ ap (λ b. t e || b) (any_of-by_time t es)

count_sent-by_time :
    (c : Carriers) (es : List OutboxEvent) → count_sent c (by_time es) ≡ count_sent c es
count_sent-by_time c [] = refl
count_sent-by_time c (e ∷ es) =
    count_sent-insert_by_time e c (by_time es)
    ∙ ap (λ n. if is_some (dispatch c e) then n else n + 1) (count_sent-by_time c es)

-- A row of the table is among the chosen ones where it passes the test.
nothing_chosen :
    (t : OutboxEvent → Bool) (i : ℕ) (rows : List OutboxEvent)
    → any_of (λ e. i == e.id) rows ≡ false
    → any_of (λ e. i == e.id) (select_where t rows) ≡ false
nothing_chosen t i [] h = refl
nothing_chosen t i (r ∷ rows) h = ground (arith, nothing_chosen t i rows)

chosen :
    (t : OutboxEvent → Bool) (i : ℕ) (rows : List OutboxEvent) (r : OutboxEvent)
    → Distinct key rows
    → find key i rows ≡ some r
    → any_of (λ e. i == e.id) (select_where t rows) ≡ t r
chosen t i [] r d f = cc
chosen t i (x ∷ rows) r d f = elim (Bool-cases (i == x.id)) [
  | inl k ↦
      let same : x ≡ r =
        some-injective _ _ (subst (λ b. (if b then some x else find key i rows) ≡ some r) k f) in
      let others =
        nothing_chosen t i rows
          (subst (λ j. any_of (λ e. j == e.id) rows ≡ false) (sym (==→eq i x.id k)) d.0) in
      let here : any_of (λ e. i == e.id) (select_where t (x ∷ rows)) ≡ t x =
        elim (Bool-cases (t x)) [ inl u ↦ rw (u, k) refl | inr u ↦ rw u others ] in
      here ∙ ap t same
  | inr k ↦
      let later : find key i rows ≡ some r =
        subst (λ b. (if b then some x else find key i rows) ≡ some r) k f in
      elim (Bool-cases (t x)) [
        | inl u ↦ rw (u, k) (chosen t i rows r d.1 later)
        | inr u ↦ rw u (chosen t i rows r d.1 later)
      ]
]

module _ (s : Settings) (c : Carriers) (now : ℕ) (rows : List OutboxEvent)
    (distinct : Distinct key rows)
    (room : length (select_where (is_due s now) rows) ≤ s.outbox_batch_size) where
  batch_lem : claimed s now rows ≡ by_time (select_where (is_due s now) rows)
  unfolding claimed
  batch_lem =
      let due = select_where (is_due s now) rows in
      let same = length-by_time due in limited_all s.outbox_batch_size (by_time due) (omega arith)

  settled_by-claimed :
      (r : OutboxEvent)
      → find key r.id rows ≡ some r
      → settled_by c now (claimed s now rows) r ≡ passed s c now r
  unfolding IsOnly
  settled_by-claimed r f =
      let only : All (IsOnly c now r) (claimed s now rows) =
        All-map (Ready s c now rows) (IsOnly c now r) (claimed s now rows)
          (λ e h k.
            some-injective _ _ (sym h.0 ∙ ap (λ i. find key i rows) (==→eq e.id r.id k) ∙ f))
          (claimed-Ready s c now rows distinct) in
      let due : any_of (λ e. r.id == e.id) (claimed s now rows) ≡ is_due s now r =
        ap (any_of (λ e. r.id == e.id)) batch_lem
        ∙ any_of-by_time (λ e. r.id == e.id) (select_where (is_due s now) rows)
        ∙ chosen (is_due s now) r.id rows r distinct f in
      settled_by_lem c now (claimed s now rows) r only
      ∙ ap (λ b. if b then settled c now r else r) due

  pass_lem :
      (es : List OutboxEvent)
      → All (λ r. find key r.id rows ≡ some r) es
      → map (settled_by c now (claimed s now rows)) es ≡ map (passed s c now) es
  pass_lem [] h = refl
  pass_lem (r ∷ es) h = ap₂ (λ x l. x ∷ l) (settled_by-claimed r h.0) (pass_lem es h.1)

-- A drain whose batch has room for all rows that are due, over a table of different identifiers, is
-- one pass: every row that is due is settled, every other is left alone, nothing else of the session
-- changes, and it returns the number of due rows that the carriers take.
pub drain_exact :
    (s : Settings) (c : Carriers) (env : Env) (t : Session Outbox)
    → Distinct key t.rows.events
    → length (select_where (is_due s env.now) t.rows.events) ≤ s.outbox_batch_size
    → drain s c env t
      ≡ ok (
        count_sent c (select_where (is_due s env.now) t.rows.events),
        record t { rows = record { events = map (passed s c env.now) t.rows.events } },
      )
unfolding drain
drain_exact s c env t d room =
    let rows = t.rows.events in
    let batch = batch_lem s c env.now rows d room in
    let number : count_sent c (claimed s env.now rows)
        ≡ count_sent c (select_where (is_due s env.now) rows) =
      ap (count_sent c) batch ∙ count_sent-by_time c (select_where (is_due s env.now) rows) in
    let table : settle_all c env.now (claimed s env.now rows) rows ≡ map (passed s c env.now) rows =
      settle_all-map c env.now (claimed s env.now rows) rows
      ∙ pass_lem s c env.now rows d room rows (found rows d) in
    ap₂ (λ n es. ok (n, record t { rows = record { events = es } })) number table
