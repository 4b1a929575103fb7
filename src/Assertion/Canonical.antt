-- ===== src/Assertion/Canonical.antt =====
-- The canonical form forgets the order of an object's members.
use testy_mc_testface.Prelude.{
  ◌≡◌, refl, ap, ◌∙◌, ◌⊎◌, inl, inr, arith, String, Bool, true, false, Option, none, some, not,
  Bool-cases,
}
use testy_mc_testface.Scenario.Value.{Value, obj, Members, end, member, same_value}
use testy_mc_testface.Assertion.{Platform, equals, not_equals}
use testy_mc_testface.Assertion.Values.{
  insert_member, sort_value, sort_members, same_canonical, compare_observation,
}

-- What is asked of `localeCompare`: a total preorder. Different keys may collate alike.
pub record IsPreorder (le : String → String → Bool) : Type 0 where
  pub total : (a b : String) → (le a b ≡ true) ⊎ (le b a ≡ true)
  pub trans : (a b c : String) → le a b ≡ true → le b c ≡ true → le a c ≡ true

-- Members in another order, in which keys that collate alike keep theirs.
pub data Reorders (le : String → String → Bool) : Members → Members → Type 0 where
  same : {m : Members} → Reorders le m m
  swap :
      {k j : String} {v w : Value} {m : Members}
      → (le k j ≡ false) ⊎ (le j k ≡ false)
      → Reorders le (member k v (member j w m)) (member j w (member k v m))
  under :
      {k : String} {v : Value} {a b : Members}
      → Reorders le a b
      → Reorders le (member k v a) (member k v b)
  both : {a b c : Members} → Reorders le a b → Reorders le b c → Reorders le a c

module _ (p : Platform) (order : IsPreorder p.collates) where
  -- Which of two keys that do not collate alike comes first.
  before :
      (k j : String)
      → (p.collates k j ≡ false) ⊎ (p.collates j k ≡ false)
      → ((p.collates k j ≡ true) × (p.collates j k ≡ false))
        ⊎ ((p.collates k j ≡ false) × (p.collates j k ≡ true))
  before k j (inl gt) = elim (order.total k j) [ inl le ↦ cc (gt, le) | inr ge ↦ inr (gt, ge) ]
  before k j (inr lt) = elim (order.total k j) [ inl le ↦ inl (le, lt) | inr ge ↦ cc (lt, ge) ]

  -- A key after one that is after a third is after the third.
  after : (k j x : String) → p.collates k j ≡ true → p.collates k x ≡ false → p.collates j x ≡ false
  after k j x le gt = elim (Bool-cases (p.collates j x)) [
    | inl h ↦ let t = order.trans k j x le h in cc (t, gt)
    | inr h ↦ h
  ]

  insert_member_comm :
      (k j : String) (v w : Value) (m : Members)
      → (p.collates k j ≡ false) ⊎ (p.collates j k ≡ false)
      → insert_member p k v (insert_member p j w m) ≡ insert_member p j w (insert_member p k v m)
  unfolding insert_member
  insert_member_comm k j v w end h = elim (before k j h) [
    | inl (a, b) ↦ rw (a, b) refl
    | inr (a, b) ↦ rw (a, b) refl
  ]
  insert_member_comm k j v w (member x u m) h = elim (before k j h) [
    | inl (a, b) ↦ elim (Bool-cases (p.collates k x)) [
      | inl kx ↦ elim (Bool-cases (p.collates j x)) [
        | inl jx ↦ ground arith
        | inr jx ↦ ground arith
      ]
      | inr kx ↦ let jx = after k j x a kx in ground (arith, insert_member_comm k j v w m h)
    ]
    | inr (a, b) ↦ elim (Bool-cases (p.collates j x)) [
      | inl jx ↦ elim (Bool-cases (p.collates k x)) [
        | inl kx ↦ ground arith
        | inr kx ↦ ground arith
      ]
      | inr jx ↦ let kx = after j k x b jx in ground (arith, insert_member_comm k j v w m h)
    ]
  ]

  sort_members-Reorders :
      {a b : Members} → Reorders p.collates a b → sort_members p a ≡ sort_members p b
  unfolding sort_members
  sort_members-Reorders same = refl
  sort_members-Reorders (swap {k} {j} {v} {w} {m} h) =
      insert_member_comm k j (sort_value p v) (sort_value p w) (sort_members p m) h
  sort_members-Reorders (under {k} {v} r) =
      ap (insert_member p k (sort_value p v)) (sort_members-Reorders r)
  sort_members-Reorders (both r t) = sort_members-Reorders r ∙ sort_members-Reorders t

  sorted-Reorders :
      {a b : Members} → Reorders p.collates a b → sort_value p (obj a) ≡ sort_value p (obj b)
  unfolding sort_value
  sorted-Reorders r = ap obj (sort_members-Reorders r)

  -- The order of an object's members makes no difference to whether an observation equals it or
  -- differs from it, whether the object is what was observed or what is expected, where keys that
  -- collate alike keep their order.
  pub compare_observation-Reorders :
      {a b : Members} (other : Option Value)
      → Reorders p.collates a b
      → (compare_observation p equals (some (obj a)) other
          ≡ compare_observation p equals (some (obj b)) other)
        × (compare_observation p equals other (some (obj a))
            ≡ compare_observation p equals other (some (obj b)))
        × (compare_observation p not_equals (some (obj a)) other
            ≡ compare_observation p not_equals (some (obj b)) other)
        × (compare_observation p not_equals other (some (obj a))
            ≡ compare_observation p not_equals other (some (obj b)))
  unfolding compare_observation same_canonical
  compare_observation-Reorders none r = (refl, refl, refl, refl)
  compare_observation-Reorders {a} {b} (some v) r =
      let e = sorted-Reorders r in
      let left = ap (λ x. same_value x (sort_value p v)) e in
      let right = ap (λ x. same_value (sort_value p v) x) e in
      (left, right, ap not left, ap not right)
