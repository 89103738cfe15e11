-- ===== src/Outbox/Attempts.antt =====
-- The attempts that the rows of the outbox have left, and what a drain makes of them.
use mathlib.Core.Option.{some-injective}
use nexora_ai.Prelude.{
  ℕ, zero, suc, ◌+◌, ◌-◌, ◌≤◌, ◌<◌, ◌≡◌, refl, sym, ap, subst, ◌∙◌, Bool, true, false, ◌||◌, some,
  List, [], ◌∷◌, ◌==◌, arith, All, All-map, any_of, select_where, update_where, is_some, is_empty,
  if◌then◌else◌, Bool-cases, Option-cases, inl, inr, ==→eq,
}
use nexora_ai.Prelude.Rows.{any_of-first, All-update, Distinct-replace}
use nexora_ai.Prelude.Groups.{Distinct, find}
use nexora_ai.Prelude.Tally.{Distinct-found}
use nexora_ai.Outbox.{
  OutboxEvent, Settings, Carriers, dispatch, is_due, insert_by_time, by_time, limited, claimed,
  settled, settle_all,
}
use nexora_ai.Outbox.Drained.{claimed-due, settled_lem}

abbrev pub key : OutboxEvent → ℕ
key e = e.id

-- The attempts that a row has left, and those of all rows.
abbrev pub left_of : ℕ → OutboxEvent → ℕ
left_of most e = if is_some e.sent_at then 0 else most - e.attempts

abbrev pub left_in : ℕ → List OutboxEvent → ℕ
left_in most [] = 0
left_in most (e ∷ es) = left_of most e + left_in most es

module _ (most : ℕ) (y : OutboxEvent) (i : ℕ) where
  replaced_below :
      (rows : List OutboxEvent)
      → All (λ r. (i == r.id) ≡ true → left_of most y ≤ left_of most r) rows
      → left_in most (update_where (λ r. i == r.id) (λ _. y) rows) ≤ left_in most rows
  replaced_below [] h = omega arith
  replaced_below (r ∷ rows) h = elim (Bool-cases (i == r.id)) [
    | inl e ↦ let a = h.0 e in let b = replaced_below rows h.1 in rw e (omega arith)
    | inr e ↦ let b = replaced_below rows h.1 in rw e (omega arith)
  ]

  replaced_less :
      (rows : List OutboxEvent)
      → any_of (λ r. i == r.id) rows ≡ true
      → All (λ r. (i == r.id) ≡ true → left_of most y < left_of most r) rows
      → left_in most (update_where (λ r. i == r.id) (λ _. y) rows) < left_in most rows
  replaced_less [] n h = cc
  replaced_less (r ∷ rows) n h = elim (Bool-cases (i == r.id)) [
    | inl e ↦
        let a = h.0 e in
        let b = replaced_below rows (
          All-map (λ q. (i == q.id) ≡ true → left_of most y < left_of most q)
            (λ q. (i == q.id) ≡ true → left_of most y ≤ left_of most q) rows
            (λ q f k. let l = f k in omega arith) h.1) in
        rw e (omega arith)
    | inr e ↦
        let there : any_of (λ q. i == q.id) rows ≡ true =
          subst (λ b. b || any_of (λ q. i == q.id) rows ≡ true) e n in
        let b = replaced_less rows there h.1 in rw e (omega arith)
  ]

-- Every row is found under its key.
missing :
    (e : OutboxEvent) (es : List OutboxEvent)
    → any_of (λ f. e.id == f.id) es ≡ false
    → All (λ f. (e.id == f.id) ≡ false) es
missing e [] n = tt
missing e (f ∷ es) n = (ground arith, missing e es (ground arith))

found_later :
    (e : OutboxEvent) (es gs : List OutboxEvent)
    → All (λ f. (e.id == f.id) ≡ false) gs
    → All (λ f. find key f.id es ≡ some f) gs
    → All (λ f. find key f.id (e ∷ es) ≡ some f) gs
found_later e es [] n h = tt
found_later e es (g ∷ gs) n h =
    let flipped : (g.id == e.id) ≡ false = ground (arith, n.0) in
    (rw flipped h.0, found_later e es gs n.1 h.1)

pub found : (es : List OutboxEvent) → Distinct key es → All (λ e. find key e.id es ≡ some e) es
found [] d = tt
found (e ∷ es) d =
    let self : (e.id == e.id) ≡ true = ground arith in
    (rw self refl, found_later e es es (missing e es d.0) (found es d.1))

module _ (s : Settings) (c : Carriers) (now : ℕ) where
  -- A row that is due has an attempt less when it is settled.
  settled-less :
      (e : OutboxEvent)
      → is_due s now e ≡ true
      → left_of s.outbox_max_attempts (settled c now e) < left_of s.outbox_max_attempts e
  unfolding settled
  settled-less e d = elim (Option-cases (dispatch c e)) [
    | inl n ↦ rw (n, settled) (ground arith)
    | inr (error, m) ↦ rw (m, settled) (ground arith)
  ]

  module _ (start : List OutboxEvent) where
    -- A row of the table has no fewer attempts left than what a row of the start is settled to.
    abbrev pub Ready : OutboxEvent → Type 0
    Ready e = (find key e.id start ≡ some e) × (is_due s now e ≡ true)

    abbrev pub IsAbove : OutboxEvent → Type 0
    IsAbove r =
        (e : OutboxEvent)
        → Ready e
        → (e.id == r.id) ≡ true
        → left_of s.outbox_max_attempts (settled c now e) ≤ left_of s.outbox_max_attempts r

    replaced-IsAbove :
        (d : OutboxEvent) (rows : List OutboxEvent)
        → Ready d
        → All IsAbove rows
        → All IsAbove (update_where (λ r. d.id == r.id) (λ _. settled c now d) rows)
    replaced-IsAbove d rows h =
        All-update IsAbove IsAbove (λ r. d.id == r.id) (λ _. settled c now d) rows
          (λ _ _ _ e p q.
            let (kept, _) = settled_lem c now d in
            let one : e.id ≡ d.id = ==→eq e.id d.id (subst (λ i. (e.id == i) ≡ true) kept q) in
            let same : d ≡ e =
              some-injective _ _ (sym h.0 ∙ ap (λ i. find key i start) (sym one) ∙ p.0) in
            subst
              (λ (z : OutboxEvent).
                left_of s.outbox_max_attempts (settled c now z)
                ≤ left_of s.outbox_max_attempts (settled c now d))
              same (omega arith))
          (λ _ _ p. p)

    pub settle_all_below :
        (es rows : List OutboxEvent)
        → All Ready es
        → All IsAbove rows
        → left_in s.outbox_max_attempts (settle_all c now es rows)
          ≤ left_in s.outbox_max_attempts rows
    unfolding settle_all
    settle_all_below [] rows h k = omega arith
    settle_all_below (d ∷ es) rows h k =
        let below =
          replaced_below s.outbox_max_attempts (settled c now d) d.id rows
            (All-map IsAbove _ rows (λ r p q. p d h.0 q) k) in
        let rest = settle_all_below es _ h.1 (replaced-IsAbove d rows h.0 k) in omega arith

    pub start-IsAbove : Distinct key start → All IsAbove start
    start-IsAbove d =
        All-map (λ r. find key r.id start ≡ some r) IsAbove start
          (λ r f e p q.
            let same : e ≡ r =
              some-injective _ _ (sym p.0 ∙ ap (λ i. find key i start) (==→eq e.id r.id q) ∙ f) in
            let less = settled-less e p.1 in
            subst
              (λ (z : OutboxEvent).
                left_of s.outbox_max_attempts (settled c now e) ≤ left_of s.outbox_max_attempts z)
              same (omega arith))
          (found start d)

    -- A batch that is not empty takes an attempt away.
    pub batch_less :
        (es : List OutboxEvent)
        → Distinct key start
        → All Ready es
        → is_empty es ≡ false
        → left_in s.outbox_max_attempts (settle_all c now es start)
          < left_in s.outbox_max_attempts start
    unfolding settle_all
    batch_less [] d h n = cc
    batch_less (e ∷ es) d h n =
        let (stands, due) = h.0 in
        let less =
          replaced_less s.outbox_max_attempts (settled c now e) e.id start
            (any_of-first (λ r. e.id == r.id) start e stands)
            (All-map (λ r. (e.id == r.id) ≡ true → r ≡ e) _ start
              (λ r same q.
                subst
                  (λ (z : OutboxEvent).
                    left_of s.outbox_max_attempts (settled c now e)
                    < left_of s.outbox_max_attempts z)
                  (sym (same q)) (settled-less e due))
              (Distinct-found key e.id start e d stands)) in
        let rest = settle_all_below es _ h.1 (replaced-IsAbove e start h.0 (start-IsAbove d)) in
        omega arith

  pub Distinct-settle_all :
      (es rows : List OutboxEvent) → Distinct key rows → Distinct key (settle_all c now es rows)
  unfolding settle_all
  Distinct-settle_all [] rows d = d
  Distinct-settle_all (e ∷ es) rows d = Distinct-settle_all es _ (
      subst (λ i. Distinct key (update_where (λ r. i == r.id) (λ _. settled c now e) rows))
        (settled_lem c now e).0 (Distinct-replace key (settled c now e) rows d))

  pub claimed-Ready :
      (rows : List OutboxEvent) → Distinct key rows → All (Ready rows) (claimed s now rows)
  claimed-Ready rows d = claimed-due (λ e. find key e.id rows ≡ some e) s now rows (found rows d)

-- Something is claimed where something is due.
insert_by_time_lem :
    (e : OutboxEvent) (es : List OutboxEvent) → is_empty (insert_by_time e es) ≡ false
insert_by_time_lem e [] = refl
insert_by_time_lem e (f ∷ fs) = ground arith

by_time_lem : (es : List OutboxEvent) → is_empty (by_time es) ≡ is_empty es
by_time_lem [] = refl
by_time_lem (e ∷ es) = insert_by_time_lem e (by_time es)

limited_lem :
    (n : ℕ) (es : List OutboxEvent) → 0 < n → is_empty (limited n es) ≡ true → is_empty es ≡ true
limited_lem zero es h e = absurd (omega arith)
limited_lem (suc n) [] h e = refl
limited_lem (suc n) (x ∷ es) h e = cc

none_selected :
    (t : OutboxEvent → Bool) (es : List OutboxEvent)
    → is_empty (select_where t es) ≡ true
    → All (λ e. t e ≡ false) es
none_selected t [] h = tt
none_selected t (e ∷ es) h = elim (Bool-cases (t e)) [
  | inl k ↦
      cc (subst (λ b. is_empty (if b then e ∷ select_where t es else select_where t es) ≡ true) k h)
  | inr k ↦ (
    k,
    none_selected t es
        (subst (λ b. is_empty (if b then e ∷ select_where t es else select_where t es) ≡ true) k h),
  )
]

pub claimed_none :
    (s : Settings) (now : ℕ) (rows : List OutboxEvent)
    → 0 < s.outbox_batch_size
    → is_empty (claimed s now rows) ≡ true
    → All (λ e. is_due s now e ≡ false) rows
unfolding claimed
claimed_none s now rows n h = none_selected (is_due s now) rows (
    sym (by_time_lem (select_where (is_due s now) rows))
    ∙ limited_lem s.outbox_batch_size (by_time (select_where (is_due s now) rows)) n h)
