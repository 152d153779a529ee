-- ===== src/Graphql/Batches.antt =====
-- What a batch of src/graphql/loaders/loaders.factory.ts gives is what one query for each key would give.
use e_commerce_order_platfor.Common.{
  suc, ◌≡◌, refl, ap, ◌∙◌, Bool, true, false, none, some, List, [], ◌∷◌, ◌++◌, map, length, select,
  find, All, Distinct, mem, or_default, ◌==◌, ==_iff, inl, inr, arith, Bool-cases, append_assoc,
  append-nil, if◌then◌else◌,
}
use e_commerce_order_platfor.Database.{Uuid}
use e_commerce_order_platfor.Graphql.Loaders.{
  push, push_all, empty_groups, batch_groups, keyed, no_entries, batch_by_id, set, Entries,
}

map-eq :
    {B : Type 0} (f g : Uuid → B) (ids : List Uuid)
    → ((i : Uuid) → mem i ids ≡ true → f i ≡ g i)
    → map f ids ≡ map g ids
map-eq f g [] h = refl
map-eq f g (i ∷ ids) h =
    let here : f i ≡ g i = h i (ground arith) in
    let rest = map-eq f g ids (λ k e. h k (ground arith)) in rw (here, rest) refl

module _ {V : Type 0} (key : V → Uuid) where
  abbrev pub has_key : Uuid → V → Bool
  has_key i r = key r == i

  abbrev pub same_key : V → V → Bool
  same_key a b = key a == key b

  -- The groups, and what the rows add to them.
  push_all_lem :
      (i : Uuid) (rs : List V) (m : Entries (List V)) (vs : List V)
      → m i ≡ some vs
      → push_all key rs m i ≡ some (vs ++ select (has_key i) rs)
  push_all_lem i [] m vs h = rw (h, append-nil vs) refl
  push_all_lem i (r ∷ rs) m vs h = elim (Bool-cases (key r == i)) [
    | inl same ↦
        push_all_lem i rs (push (key r) r m) (vs ++ r ∷ []) (rw (same, h) refl)
        ∙ rw (same, append_assoc vs (r ∷ []) (select (has_key i) rs)) refl
    | inr other ↦ push_all_lem i rs (push (key r) r m) vs (rw (other, h) refl) ∙ rw other refl
  ]

  select-select :
      (p q : V → Bool) (xs : List V)
      → ((x : V) → p x ≡ true → q x ≡ true)
      → select p (select q xs) ≡ select p xs
  select-select p q [] h = refl
  select-select p q (x ∷ xs) h = elim (Bool-cases (q x)) [
    | inl e ↦ rw e (ap (λ ys. if p x then x ∷ ys else ys) (select-select p q xs h))
    | inr e ↦
        let unseen : p x ≡ false = ground (arith, h x) in rw (e, unseen) (select-select p q xs h)
  ]

  mem_key :
      (i : Uuid) (ids : List Uuid) (r : V)
      → mem i ids ≡ true
      → has_key i r ≡ true
      → mem (key r) ids ≡ true
  mem_key i ids r h e = rw ((==_iff (key r) i).0 e) h

  pub batch_groups_lem :
      (rows : List V) (ids : List Uuid)
      → batch_groups key rows ids ≡ map (λ i. select (has_key i) rows) ids
  batch_groups_lem rows [] = refl
  batch_groups_lem rows (k ∷ ks) =
      let ids = k ∷ ks in
      let found = select (λ r. mem (key r) ids) rows in
      let keys : (suc (length ks) == 0) ≡ false = ground arith in
      rw keys (
        map-eq (λ i. or_default (push_all key found (empty_groups ids) i) [])
          (λ i. select (has_key i) rows) ids
          (λ i e.
            rw
              (
                push_all_lem i found (empty_groups ids) [] (rw e refl),
                select-select (has_key i) (λ r. mem (key r) ids) rows (λ r. mem_key i ids r e),
              )
              refl))

  keyed_lem :
      (i : Uuid) (rs : List V) (m : Entries V)
      → All (λ r. has_key i r ≡ false) rs
      → keyed key rs m i ≡ m i
  keyed_lem i [] m h = refl
  keyed_lem i (r ∷ rs) m h = keyed_lem i rs (set (key r) r m) h.1 ∙ rw (h.0) refl

  All-other :
      (i : Uuid) (r : V) (rs : List V)
      → has_key i r ≡ true
      → All (λ x. same_key r x ≡ false) rs
      → All (λ x. has_key i x ≡ false) rs
  All-other i r [] e h = tt
  All-other i r (x ∷ xs) e h = (ground (arith, h.0), All-other i r xs e h.1)

  -- With distinct keys it does not matter that a later row takes the place of an earlier one.
  keyed-find :
      (i : Uuid) (rs : List V) (m : Entries V)
      → m i ≡ none
      → Distinct same_key rs
      → keyed key rs m i ≡ find (has_key i) rs
  keyed-find i [] m h d = h
  keyed-find i (r ∷ rs) m h d = elim (Bool-cases (has_key i r)) [
    | inl e ↦ keyed_lem i rs (set (key r) r m) (All-other i r rs e d.0) ∙ rw e refl
    | inr e ↦ keyed-find i rs (set (key r) r m) (rw (e, h) refl) d.1 ∙ rw e refl
  ]

  find-select :
      (p q : V → Bool) (xs : List V)
      → ((x : V) → p x ≡ true → q x ≡ true)
      → find p (select q xs) ≡ find p xs
  find-select p q [] h = refl
  find-select p q (x ∷ xs) h = ground (arith, h x, find-select p q xs h)

  All-select : (P : V → Type 0) (q : V → Bool) (xs : List V) → All P xs → All P (select q xs)
  All-select P q [] h = tt
  All-select P q (x ∷ xs) h = elim (Bool-cases (q x)) [
    | inl e ↦ rw e (h.0, All-select P q xs h.1)
    | inr e ↦ rw e (All-select P q xs h.1)
  ]

  Distinct-select :
      (q : V → Bool) (xs : List V) → Distinct same_key xs → Distinct same_key (select q xs)
  Distinct-select q [] d = tt
  Distinct-select q (x ∷ xs) d = elim (Bool-cases (q x)) [
    | inl e ↦ rw e (All-select (λ y. same_key x y ≡ false) q xs d.0, Distinct-select q xs d.1)
    | inr e ↦ rw e (Distinct-select q xs d.1)
  ]

  pub batch_by_id_lem :
      (rows : List V) (ids : List Uuid)
      → Distinct same_key rows
      → batch_by_id key rows ids ≡ map (λ i. find (has_key i) rows) ids
  batch_by_id_lem rows [] d = refl
  batch_by_id_lem rows (k ∷ ks) d =
      let ids = k ∷ ks in
      let q = λ (r : V). mem (key r) ids in
      let keys : (suc (length ks) == 0) ≡ false = ground arith in
      rw keys (
        map-eq (keyed key (select q rows) no_entries) (λ i. find (has_key i) rows) ids
          (λ i e.
            keyed-find i (select q rows) no_entries refl (Distinct-select q rows d)
            ∙ find-select (has_key i) q rows (λ r. mem_key i ids r e)))
