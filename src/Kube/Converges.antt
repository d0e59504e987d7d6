-- ===== src/Kube/Converges.antt =====
-- What a sweep leaves behind: the desired resources of the owner, and all of the other owners'.
use nvoi.Base.{
  Bytes, some, true, false, List, [], ◌∷◌, ◌==◌, ==_iff, ==_refl, ◌||◌, not, contains, select, All,
  is_empty, Bool-cases, inl, inr, arith, ◌≡◌, refl, sym, ap, ◌∙◌,
}
use nvoi.Kube.Sweep.{
  Kind, is_supported, ignore_not_found, swept, delete_failed, owner_selector, Api, sweep_items,
  sweep_owned, list_owned,
}

-- What a successful deletion does: the name is in no listing of its kind any more, and no
-- listing changes otherwise.
abbrev pub RemovesNames : Api → Type 0
RemovesNames api =
    (s : api.State) (kind : Kind) (n selector : Bytes) (names : List Bytes)
    → ignore_not_found (api.delete s kind n).0 ≡ true
    → api.list s kind selector ≡ some names
    → api.list (api.delete s kind n).1 kind selector ≡ some (select (λ m. not (m == n)) names)

-- The names that a sweep of `items` leaves of a listing.
abbrev left : (keep items names : List Bytes) → List Bytes
left keep items names = select (λ m. contains m keep || not (contains m items)) names

left-nil : (keep names : List Bytes) → left keep [] names ≡ names
unfolding contains
left-nil keep [] = refl
left-nil keep (n ∷ names) = ground (arith, left-nil keep names)

left-kept :
    (keep : List Bytes) (n : Bytes) (items names : List Bytes)
    → contains n keep ≡ true
    → left keep (n ∷ items) names ≡ left keep items names
unfolding contains
left-kept keep n items [] h = refl
left-kept keep n items (m ∷ names) h = ground (arith, h, left-kept keep n items names h, ==_iff n m)

left-removed :
    (keep : List Bytes) (n : Bytes) (items names : List Bytes)
    → contains n keep ≡ false
    → left keep items (select (λ m. not (m == n)) names) ≡ left keep (n ∷ items) names
unfolding contains
left-removed keep n items [] h = refl
left-removed keep n items (m ∷ names) h =
    ground (arith, h, left-removed keep n items names h, ==_iff n m, ==_iff m n)

module _ (api : Api) (s : api.State) (kind : Kind) (keep : List Bytes) (n : Bytes)
    (items : List Bytes) where
  sweep_items-kept :
      contains n keep ≡ true
      → sweep_items api s kind keep (n ∷ items) ≡ sweep_items api s kind keep items
  unfolding sweep_items
  sweep_items-kept h = rw h refl

  sweep_items-gone :
      contains n keep ≡ false
      → ignore_not_found (api.delete s kind n).0 ≡ true
      → sweep_items api s kind keep (n ∷ items)
        ≡ sweep_items api (api.delete s kind n).1 kind keep items
  unfolding sweep_items
  sweep_items-gone h k = rw (h, k) refl

  sweep_items-stays :
      contains n keep ≡ false
      → ignore_not_found (api.delete s kind n).0 ≡ false
      → sweep_items api s kind keep (n ∷ items) ≡ (delete_failed n, (api.delete s kind n).1)
  unfolding sweep_items
  sweep_items-stays h k = rw (h, k) refl

module _ (api : Api) (removes : RemovesNames api) where
  sweep_items-left :
      (s : api.State) (kind : Kind) (keep items : List Bytes) (selector : Bytes)
      (names : List Bytes)
      → api.list s kind selector ≡ some names
      → (sweep_items api s kind keep items).0 ≡ swept
      → api.list (sweep_items api s kind keep items).1 kind selector ≡ some (left keep items names)
  unfolding sweep_items
  sweep_items-left s kind keep [] selector names h ok = h ∙ ap some (sym (left-nil keep names))
  sweep_items-left s kind keep (n ∷ items) selector names h ok =
      elim (Bool-cases (contains n keep)) [
        | inl kept ↦ rw kept (
            sweep_items-left s kind keep items selector names h
              (ap (λ r. r.0) (sym (sweep_items-kept api s kind keep n items kept)) ∙ ok)
            ∙ ap some (sym (left-kept keep n items names kept)))
        | inr unkept ↦ elim (Bool-cases (ignore_not_found (api.delete s kind n).0)) [
          | inl gone ↦
              rw (unkept, gone)
                (sweep_items-left (api.delete s kind n).1 kind keep items selector
                    (select (λ m. not (m == n)) names) (removes s kind n selector names gone h)
                    (ap (λ r. r.0) (sym (sweep_items-gone api s kind keep n items unkept gone))
                      ∙ ok)
                  ∙ ap some (left-removed keep n items names unkept))
          | inr stays ↦ absurd (
              ground (
                arith,
                ap (λ r. r.0) (sym (sweep_items-stays api s kind keep n items unkept stays)) ∙ ok,
              ))
        ]
      ]

  -- The owner's own listing, and one that shares no name with it.
  left_all :
      (keep items names : List Bytes)
      → All (λ m. contains m items ≡ true) names
      → left keep items names ≡ select (λ m. contains m keep) names
  left_all keep items [] h = refl
  left_all keep items (m ∷ names) (p, h) = ground (arith, p, left_all keep items names h)

  left_none :
      (keep items names : List Bytes)
      → All (λ m. contains m items ≡ false) names
      → left keep items names ≡ names
  left_none keep items [] h = refl
  left_none keep items (m ∷ names) (p, h) = ground (arith, p, left_none keep items names h)

  All-contains_cons :
      (n : Bytes) (items names : List Bytes)
      → All (λ m. contains m items ≡ true) names
      → All (λ m. contains m (n ∷ items) ≡ true) names
  unfolding contains
  All-contains_cons n items [] h = tt
  All-contains_cons n items (m ∷ names) (p, h) =
      (ground (arith, p), All-contains_cons n items names h)

  All-contains_self : (names : List Bytes) → All (λ m. contains m names ≡ true) names
  unfolding contains
  All-contains_self [] = tt
  All-contains_self (n ∷ names) =
      (ground (arith, ==_refl n), All-contains_cons n names names (All-contains_self names))

  -- What a listing that succeeds says.
  list_owned-inside :
      (s : api.State) (owner : Bytes) (kind : Kind) (names : List Bytes)
      → list_owned api s owner kind ≡ some names
      → (is_empty owner ≡ false)
        × (is_supported kind ≡ true)
        × (api.list s kind (owner_selector owner) ≡ some names)
  unfolding list_owned
  list_owned-inside s owner kind names h = (ground (arith, h), ground (arith, h), ground (arith, h))

  module _ (s : api.State) (owner : Bytes) (kind : Kind) (desired : List Bytes) (names : List Bytes)
      (listed : list_owned api s owner kind ≡ some names) where
    sweep_owned-items : sweep_owned api s owner kind desired ≡ sweep_items api s kind desired names
    unfolding sweep_owned
    sweep_owned-items =
        let (owned, known, found) = list_owned-inside s owner kind names listed in
        rw (owned, known, found) refl

    sweep_items-swept :
        (sweep_owned api s owner kind desired).0 ≡ swept
        → (sweep_items api s kind desired names).0 ≡ swept
    sweep_items-swept ok = ap (λ r. r.0) (sym sweep_owned-items) ∙ ok

    -- Where the API server removes what it confirms as deleted, a sweep that succeeds leaves exactly
    -- the desired ones of the owner's resources of its kind, in their order.
    pub sweep_owned-keeps_desired :
        (sweep_owned api s owner kind desired).0 ≡ swept
        → list_owned api (sweep_owned api s owner kind desired).1 owner kind
          ≡ some (select (λ m. contains m desired) names)
    unfolding list_owned
    sweep_owned-keeps_desired ok =
        let (owned, known, found) = list_owned-inside s owner kind names listed in
        rw (owned, known, sweep_owned-items)
          (sweep_items-left s kind desired names (owner_selector owner) names found
              (sweep_items-swept ok)
            ∙ ap some (left_all desired names names (All-contains_self names)))

    -- Where the API server removes what it confirms as deleted, a sweep that succeeds leaves
    -- another owner's listing of the kind as it was, if no name stands in both listings.
    pub sweep_owned-other_owners :
        (other : Bytes) (others : List Bytes)
        → list_owned api s other kind ≡ some others
        → All (λ m. contains m names ≡ false) others
        → (sweep_owned api s owner kind desired).0 ≡ swept
        → list_owned api (sweep_owned api s owner kind desired).1 other kind ≡ some others
    unfolding list_owned
    sweep_owned-other_owners other others h apart ok =
        let (owned, known, found) = list_owned-inside s other kind others h in
        rw (owned, known, sweep_owned-items)
          (sweep_items-left s kind desired names (owner_selector other) others found
              (sweep_items-swept ok)
            ∙ ap some (left_none desired names others apart))
