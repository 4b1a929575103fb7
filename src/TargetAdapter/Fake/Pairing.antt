-- ===== src/TargetAdapter/Fake/Pairing.antt =====
-- The two maps of the fake target belong together, so that a cleanup takes one run away and no other.
use testy_mc_testface.Prelude.{
  ◌≡◌, ◌≢◌, sym, ap, subst, ◌∙◌, String, false, Option, none, some, Table, lookup, insert, delete,
  lookup-insert, lookup-insert_self, lookup-delete, str_eq, eq_iff, eq_refl, arith, Bool-cases, inl,
  inr,
}
use text.Mathlib.TextLemmas.{append_cancel_left}
use testy_mc_testface.TargetAdapter.Fake.{
  PreparedTarget, FakeTargetState, FakeTargetAdapter, new_adapter, target_of, fresh_state, prepare,
  forget,
}

-- Different keys, seen from the equation of a lookup.
module _ {V : Type 0} where
  lookup-insert_other :
      (key other : String) (new : V) (t : Table V)
      → key ≢ other
      → lookup other (insert key new t) ≡ lookup other t
  lookup-insert_other key other new t apart =
      ground (arith, lookup-insert key other new t, eq_iff key other)

  pub lookup-delete_self : (key : String) (t : Table V) → lookup key (delete key t) ≡ none
  lookup-delete_self key t = ground (arith, lookup-delete key key t, eq_refl key)

  pub lookup-delete_other :
      (key other : String) (t : Table V)
      → key ≢ other
      → lookup other (delete key t) ≡ lookup other t
  lookup-delete_other key other t apart =
      ground (arith, lookup-delete key other t, eq_iff key other)

apart : (a b : String) → str_eq a b ≡ false → a ≢ b
apart a b h e = ground (arith, eq_iff a b)

module _ (segment_of : (run_id : String) → String) (Known : String → Type 0) where
  -- Each run stands with its own target, and each target with its own run.
  pub record IsPaired (a : FakeTargetAdapter) : Type 0 where
    pub forth :
        (run : String) (s : FakeTargetState)
        → lookup run a.by_run ≡ some s
        → (s.prepared.target_run_id ≡ target_of segment_of run)
          × (lookup (target_of segment_of run) a.by_target ≡ some run)
    pub back :
        (target run : String)
        → lookup target a.by_target ≡ some run
        → target ≡ target_of segment_of run
    pub known : (target run : String) → lookup target a.by_target ≡ some run → Known run

  pub new_adapter-IsPaired : IsPaired new_adapter
  unfolding lookup
  new_adapter-IsPaired = record {
    forth = λ run s h. cc;
    back = λ target run h. cc;
    known = λ target run h. absurd (cc);
  }

  pub change-IsPaired :
      (run : String) (f : FakeTargetState → FakeTargetState) (s : FakeTargetState)
      (a : FakeTargetAdapter)
      → ((t : FakeTargetState) → (f t).prepared ≡ t.prepared)
      → lookup run a.by_run ≡ some s
      → IsPaired a
      → IsPaired (record a { by_run = insert run (f s) a.by_run })
  change-IsPaired run f s a keeps there paired = record {
    forth = λ other t h. elim (Bool-cases (str_eq run other)) [
      | inl same ↦
          let e : run ≡ other = (eq_iff run other).0 same in
          let (target, found) = paired.forth run s there in
          let here : lookup other (insert run (f s) a.by_run) ≡ some (f s) =
            ap (λ (k : String). lookup k (insert run (f s) a.by_run)) (sym e)
            ∙ lookup-insert_self run (f s) a.by_run in
          let new : t ≡ f s = cc in
          let id : t.prepared.target_run_id ≡ s.prepared.target_run_id =
            ap (λ (x : FakeTargetState). x.prepared.target_run_id) new
            ∙ ap (λ (x : PreparedTarget). x.target_run_id) (keeps s) in
          (
            id ∙ target ∙ ap (target_of segment_of) e,
            ap (λ (k : String). lookup (target_of segment_of k) a.by_target) (sym e)
                ∙ found
                ∙ ap (λ (k : String). some k) e,
          )
      | inr away ↦
          paired.forth other t
            (sym (lookup-insert_other run other (f s) a.by_run (apart run other away)) ∙ h)
    ];
    back = paired.back;
    known = paired.known;
  }

  module _ (differ : (m n : String) → Known m → Known n → segment_of m ≡ segment_of n → m ≡ n) where
    target_of-inj :
        (m n : String) → Known m → Known n → target_of segment_of m ≡ target_of segment_of n → m ≡ n
    target_of-inj m n is_m is_n e =
        differ m n is_m is_n (append_cancel_left "fake-" (segment_of m) (segment_of n) e)

    pub prepare-IsPaired :
        (run : String) (found : Option FakeTargetState) (a : FakeTargetAdapter)
        → Known run
        → IsPaired a
        → IsPaired (prepare segment_of run found a).1
    prepare-IsPaired run (some s) a is_known paired = paired
    prepare-IsPaired run none a is_known paired = record {
      forth = λ other t h. elim (Bool-cases (str_eq run other)) [
        | inl same ↦
            let e : run ≡ other = (eq_iff run other).0 same in
            let here : lookup other (insert run (fresh_state segment_of run) a.by_run)
                ≡ some (fresh_state segment_of run) =
              ap (λ (k : String). lookup k (insert run (fresh_state segment_of run) a.by_run))
                (sym e)
              ∙ lookup-insert_self run (fresh_state segment_of run) a.by_run in
            let new : t ≡ fresh_state segment_of run = cc in
            (
              ap (λ (x : FakeTargetState). x.prepared.target_run_id) new
                  ∙ ap (target_of segment_of) e,
              ap
                    (λ (k : String).
                      lookup (target_of segment_of k)
                        (insert (target_of segment_of run) run a.by_target))
                    (sym e)
                  ∙ lookup-insert_self (target_of segment_of run) run a.by_target
                  ∙ ap (λ (k : String). some k) e,
            )
        | inr away ↦
            let other_run = apart run other away in
            let (target, found) = paired.forth other t (
              sym (lookup-insert_other run other (fresh_state segment_of run) a.by_run other_run)
              ∙ h) in
            (
              target,
              lookup-insert_other (target_of segment_of run) (target_of segment_of other) run
                    a.by_target
                    (λ e. other_run (
                      target_of-inj run other is_known
                        (paired.known (target_of segment_of other) other found) e))
                  ∙ found,
            )
      ];
      back = λ target other h. elim (Bool-cases (str_eq (target_of segment_of run) target)) [
        | inl same ↦
            let e : target_of segment_of run ≡ target =
              (eq_iff (target_of segment_of run) target).0 same in
            let here : lookup target (insert (target_of segment_of run) run a.by_target)
                ≡ some run =
              ap (λ (k : String). lookup k (insert (target_of segment_of run) run a.by_target))
                (sym e)
              ∙ lookup-insert_self (target_of segment_of run) run a.by_target in
            let new : run ≡ other = cc in sym e ∙ ap (target_of segment_of) new
        | inr away ↦ paired.back target other (
            sym (
              lookup-insert_other (target_of segment_of run) target run a.by_target
                (apart (target_of segment_of run) target away))
            ∙ h)
      ];
      known = λ target other h. elim (Bool-cases (str_eq (target_of segment_of run) target)) [
        | inl same ↦
            let e : target_of segment_of run ≡ target =
              (eq_iff (target_of segment_of run) target).0 same in
            let here : lookup target (insert (target_of segment_of run) run a.by_target)
                ≡ some run =
              ap (λ (k : String). lookup k (insert (target_of segment_of run) run a.by_target))
                (sym e)
              ∙ lookup-insert_self (target_of segment_of run) run a.by_target in
            let new : run ≡ other = cc in subst Known new is_known
        | inr away ↦ paired.known target other (
            sym (
              lookup-insert_other (target_of segment_of run) target run a.by_target
                (apart (target_of segment_of run) target away))
            ∙ h)
      ];
    }

    pub forget-IsPaired :
        (target : String) (run : String) (a : FakeTargetAdapter)
        → lookup target a.by_target ≡ some run
        → IsPaired a
        → IsPaired (forget target (some run) a)
    forget-IsPaired target run a there paired = record {
      forth = λ other t h. elim (Bool-cases (str_eq run other)) [
        | inl same ↦
            let e : run ≡ other = (eq_iff run other).0 same in
            let gone : lookup other (delete run a.by_run) ≡ none =
              ap (λ (k : String). lookup k (delete run a.by_run)) (sym e)
              ∙ lookup-delete_self run a.by_run in
            absurd (cc)
        | inr away ↦
            let other_run = apart run other away in
            let (id, found) =
              paired.forth other t (sym (lookup-delete_other run other a.by_run other_run) ∙ h) in
            let own = paired.back target run there in
            (
              id,
              lookup-delete_other target (target_of segment_of other) a.by_target (λ e. other_run (
                    target_of-inj run other (paired.known target run there)
                      (paired.known (target_of segment_of other) other found) (sym own ∙ e)))
                  ∙ found,
            )
      ];
      back = λ t other h. elim (Bool-cases (str_eq target t)) [
        | inl same ↦
            let e : target ≡ t = (eq_iff target t).0 same in
            let gone : lookup t (delete target a.by_target) ≡ none =
              ap (λ (k : String). lookup k (delete target a.by_target)) (sym e)
              ∙ lookup-delete_self target a.by_target in
            absurd (cc)
        | inr away ↦
            paired.back t other
              (sym (lookup-delete_other target t a.by_target (apart target t away)) ∙ h)
      ];
      known = λ t other h. elim (Bool-cases (str_eq target t)) [
        | inl same ↦
            let e : target ≡ t = (eq_iff target t).0 same in
            let gone : lookup t (delete target a.by_target) ≡ none =
              ap (λ (k : String). lookup k (delete target a.by_target)) (sym e)
              ∙ lookup-delete_self target a.by_target in
            absurd (cc)
        | inr away ↦
            paired.known t other
              (sym (lookup-delete_other target t a.by_target (apart target t away)) ∙ h)
      ];
    }
