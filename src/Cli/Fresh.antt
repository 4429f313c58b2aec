-- ===== src/Cli/Fresh.antt =====
-- What the name is that create chooses by itself.
use tx.Base.{
  ℕ, zero, suc, false, ◌≡◌, refl, subst, ◌∙◌, sym, ap, List, ◌∷◌, Result, ok, err, arith,
  ok-injective, Bool-cases, inl, inr,
}
use tx.Box.{Fault}
use tx.Cli.Common.{is_objects_exist, fresh_or, fresh_rounds, generate_fresh_box_name, generated}
use tx.Dict.{elem}
use tx.Docker.Exec.{Exec, lift}
use tx.Docker.Keeps.{continue-eq-ok}
use tx.Docker.{Engine, World}
use tx.Names.Fresh.{generate-free}
use tx.Names.Valid.{generate-valid}
use tx.Names.{NameFault, Rand, generate, validate}
use tx.Text.{Text}

generated-eq-ok : (r : Result NameFault Text) {name : Text} → generated r ≡ ok name → r ≡ ok name
unfolding generated
generated-eq-ok (ok name) e = ap ok (ok-injective e)
generated-eq-ok (err f) e = cc

elem_tail : (name k : Text) (ks : List Text) → elem name (k ∷ ks) ≡ false → elem name ks ≡ false
unfolding elem
elem_tail name k ks e = ground arith

module _ (engine : Engine) (preflight : Text → Exec engine Fault (Unit {0})) where
  -- The name is valid and not taken, and its preflight came through as the last thing of the run.
  pub record IsFresh (taken : List Text) (name : Text) (after : World engine) : Type 0 where
    pub is_valid : validate name ≡ ok tt
    pub not_taken : elem name taken ≡ false
    pub before : World engine
    pub came_through : preflight name before ≡ (ok tt, after)

  fresh_or-IsFresh :
      (taken : List Text) (chosen : Text) (next : Exec engine Fault Text)
      (r : Result Fault (Unit {0})) (before after : World engine) {name : Text}
      → validate chosen ≡ ok tt
      → elem chosen taken ≡ false
      → preflight chosen before ≡ (r, after)
      → ((v : World engine) (n : Text) → (next v).0 ≡ ok n → IsFresh (chosen ∷ taken) n (next v).1)
      → (fresh_or engine chosen next r after).0 ≡ ok name
      → IsFresh taken name (fresh_or engine chosen next r after).1
  unfolding fresh_or
  fresh_or-IsFresh taken chosen next (ok u) before after {name} valid free ran later e =
      let same : chosen ≡ name = ok-injective e in
      subst (λ n. IsFresh taken n after) same
        (record { is_valid = valid; not_taken = free; before = before; came_through = ran })
  fresh_or-IsFresh taken chosen next (err f) before after {name} valid free ran later e =
      elim (Bool-cases (is_objects_exist f)) [
        | inr other ↦ absurd (cc (rw (other, fresh_or) at e))
        | inl exist ↦
            let fresh = later after name (rw (exist, fresh_or) at e) in
            rw (exist, fresh_or)
              (record {
                is_valid = fresh.is_valid;
                not_taken = elem_tail name chosen taken fresh.not_taken;
                before = fresh.before;
                came_through = fresh.came_through;
              })
      ]

  fresh_rounds-IsFresh :
      (rounds : ℕ) (rands : ℕ → Rand) (taken : List Text) (w : World engine) {name : Text}
      → (fresh_rounds engine rounds rands preflight taken w).0 ≡ ok name
      → IsFresh taken name (fresh_rounds engine rounds rands preflight taken w).1
  unfolding fresh_rounds
  fresh_rounds-IsFresh zero rands taken w e = cc
  fresh_rounds-IsFresh (suc rounds) rands taken w {name} e =
      let (chosen, g, same) =
        continue-eq-ok (lift (generated (generate (rands rounds) taken)) w) _ e in
      let is_generated = generated-eq-ok _ g in
      rw same (
        fresh_or-IsFresh taken chosen (fresh_rounds engine rounds rands preflight (chosen ∷ taken))
          (preflight chosen w).0 w (preflight chosen w).1 (generate-valid _ taken is_generated)
          (generate-free _ taken is_generated) refl
          (λ v n. fresh_rounds-IsFresh rounds rands (chosen ∷ taken) v)
          (sym (ap (λ o. o.0) same) ∙ e))

  -- The name that generateFreshBoxName returns is a valid box name, is not among the names of the
  -- boxes, and its preflight came through as the last thing of the run.
  pub generate_fresh_box_name-IsFresh :
      (rands : ℕ → Rand) (taken : List Text) (w : World engine) (name : Text)
      → (generate_fresh_box_name engine rands preflight taken w).0 ≡ ok name
      → IsFresh taken name (generate_fresh_box_name engine rands preflight taken w).1
  unfolding generate_fresh_box_name
  generate_fresh_box_name-IsFresh rands taken w name e = fresh_rounds-IsFresh 100 rands taken w e
