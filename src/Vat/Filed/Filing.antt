-- ===== src/Vat/Filed/Filing.antt =====
-- Preparing and filing a return keep the promise of filed returns.
use nexora_ai.Prelude.{
  ◌≡◌, refl, sym, ◌∙◌, subst, false, some, List, [], ◌∷◌, ◌++◌, ◌==◌, arith, All-append, any_of,
  first, Bool-cases, inl, inr,
}
use nexora_ai.Prelude.Groups.{Distinct-append}
use nexora_ai.Prelude.Rows.{
  All-update, All-first, first-passes, any_of-first, any_of-append, any_of-left, any_of-replace,
  Distinct-replace,
}
use nexora_ai.Session.{
  Uuid, Date, Context, Env, not_found, conflict, Session, ok, raise_if, audit, raise_if_inv,
  or_raise_inv, ◌>>◌,
}
use nexora_ai.Session.Keeps.{Keeps, Keeps-inv, keeps_rules}
use nexora_ai.Vat.Model.{VatReturn, Totals, Register, is_filed, insert_return, same_period}
use nexora_ai.Vat.Returns.{
  totals_of, claim_rows, new_return, prepare_return, filed_return, put_return, claim_and_file,
  file_return,
}
use nexora_ai.Vat.Filed.{
  return_id, claimed, IsStated, IsRegister, with_claim, claimed-other, claimed-in_period,
}
use nexora_ai.Vat.Filed.Kept.{IsStated-same}

-- A new draft, under an identifier that no return has.
inserted-IsRegister :
    (i : Uuid) (start end : Date) (totals : Totals) (b : Register)
    → IsRegister b
    → any_of (λ q. i == q.id) b.returns ≡ false
    → IsRegister (record b { returns = b.returns ++ new_return i start end totals ∷ [] })
inserted-IsRegister i start end totals b h n =
    let r = new_return i start end totals in
    record {
      returns_distinct = Distinct-append return_id r b.returns h.returns_distinct n;
      stated = All-append (IsStated b.transactions) b.returns (r ∷ []) h.stated (
        record { figures = λ e. cc; in_its_period = λ e. cc; nothing_claimed = λ e. h.unknown i n },
        tt,
      );
      unknown = λ j m.
          h.unknown j (ground (arith, any_of-append (λ (q : VatReturn). j == q.id) b.returns r));
    }

pub insert_return_inv :
    (r : VatReturn) (s : Session Register) {u : Unit × Session Register}
    → insert_return r s ≡ ok u
    → (any_of (λ q. r.id == q.id) s.rows.returns ≡ false)
      × (u.1.rows ≡ record (s.rows) { returns = s.rows.returns ++ r ∷ [] })
unfolding insert_return
insert_return_inv r s h = (
  any_of-left (λ (q : VatReturn). r.id == q.id) (same_period r) s.rows.returns (ground arith),
  ground arith,
)

insert_return-IsRegister :
    (i : Uuid) (start end : Date) (totals : Totals)
    → Keeps IsRegister (insert_return (new_return i start end totals))
insert_return-IsRegister i start end totals =
    Keeps-inv {P = IsRegister} {m = insert_return (new_return i start end totals)} λ s u h e.
      let (fresh, after) = insert_return_inv (new_return i start end totals) s e in
      subst IsRegister (sym after) (inserted-IsRegister i start end totals s.rows h fresh)

pub prepare_return-IsRegister :
    (env : Env) (start end : Date) → Keeps IsRegister (prepare_return env start end)
unfolding prepare_return
prepare_return-IsRegister env start end = search (keeps_rules, insert_return-IsRegister) depth 14

-- The register after a filing.
abbrev pub after_filing : Context → Env → VatReturn → Register → Register
after_filing c env r b =
    put_return (filed_return c env (totals_of (claimed r.id (with_claim r b.transactions))) r)
      (claim_rows r b)

-- A return that is found has an identifier that is known.
other_id :
    (i j : Uuid) (r : VatReturn) (rs : List VatReturn)
    → first (λ q. i == q.id) rs ≡ some r
    → any_of (λ q. j == q.id) rs ≡ false
    → (j == r.id) ≡ false
other_id i j r rs found n = elim (Bool-cases (j == r.id)) [
  | inl e ↦
      let test = first-passes (λ (q : VatReturn). i == q.id) rs r found in
      let same : i ≡ j = ground arith in
      cc (
        n,
        any_of-first (λ (q : VatReturn). j == q.id) rs r
            (subst (λ k. first (λ (q : VatReturn). k == q.id) rs ≡ some r) same found),
      )
  | inr e ↦ e
]

filing-IsRegister :
    (c : Context) (env : Env) (i : Uuid) (r : VatReturn) (b : Register)
    → IsRegister b
    → first (λ q. i == q.id) b.returns ≡ some r
    → is_filed r.status ≡ false
    → IsRegister (after_filing c env r b)
filing-IsRegister c env i r b h found unfiled =
    let us = with_claim r b.transactions in
    let f = filed_return c env (totals_of (claimed r.id us)) r in
    let (was, test) =
      All-first (IsStated b.transactions) (λ q. i == q.id) b.returns r h.stated found in
    let nothing = was.nothing_claimed unfiled in
    record {
      returns_distinct = Distinct-replace return_id f b.returns h.returns_distinct;
      stated =
          All-update (IsStated b.transactions) (IsStated us) (λ q. r.id == q.id) (λ _. f) b.returns
            (λ q _ _. record {
              figures = λ _. refl;
              in_its_period = λ _. claimed-in_period r b.transactions nothing;
              nothing_claimed = λ e. cc;
            })
            (λ q n k.
              IsStated-same b.transactions us q (claimed-other q.id r b.transactions (ground arith))
                k)
            h.stated;
      unknown = λ j n.
          let was_unknown = sym (any_of-replace return_id f j b.returns) ∙ n in
          claimed-other j r b.transactions (other_id i j r b.returns found was_unknown)
          ∙ h.unknown j was_unknown;
    }

claim_and_file_inv :
    (c : Context) (env : Env) (r : VatReturn) (s : Session Register)
    {u : VatReturn × Session Register}
    → claim_and_file c env r s ≡ ok u
    → u.1.rows ≡ after_filing c env r s.rows
unfolding claim_and_file audit
claim_and_file_inv c env r s h = ground arith

-- What `file_return` went through.
pub file_return_inv :
    (c : Context) (env : Env) (i : Uuid) (s : Session Register) {u : VatReturn × Session Register}
    → file_return c env i s ≡ ok u
    → (r : VatReturn) × (first (λ q. i == q.id) s.rows.returns ≡ some r)
      × (is_filed r.status ≡ false)
      × (u.1.rows ≡ after_filing c env r s.rows)
unfolding file_return
file_return_inv c env i s {u} e =
    let (r, found, e1) =
      or_raise_inv (first (λ (q : VatReturn). i == q.id) s.rows.returns) not_found
        (λ r.
          raise_if (is_filed r.status) (conflict "RETURN_ALREADY_FILED") >> claim_and_file c env r)
        s e in
    let (unfiled, e2) =
      raise_if_inv (is_filed r.status) (conflict "RETURN_ALREADY_FILED") (claim_and_file c env r) s
        e1 in
    (r, found, unfiled, claim_and_file_inv c env r s e2)

pub file_return-IsRegister :
    (c : Context) (env : Env) (i : Uuid) → Keeps IsRegister (file_return c env i)
file_return-IsRegister c env i = Keeps-inv {P = IsRegister} {m = file_return c env i} λ s u h e.
    let (r, found, unfiled, after) = file_return_inv c env i s e in
    subst IsRegister (sym after) (filing-IsRegister c env i r s.rows h found unfiled)
