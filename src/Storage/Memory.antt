-- ===== src/Storage/Memory.antt =====
-- A collection that keeps its documents in a map, which shows that the laws of the interface can hold.
use game01_server.Prelude.{
  ◌≡◌, ◌⊎◌, ◌∙◌, ap, inl, inr, refl, Bool, true, Option, none, some, [], ◌∷◌, String, arith,
}
use game01_server.Prelude.Tests.{if◌then◌else◌, Bool-cases, Option-cases}
use game01_server.Prelude.Eq.{string_eq, str_eq, eq_iff}
use game01_server.Prelude.Maps.{Map, get, put, del, get-put, get-del}
use game01_server.Storage.UnitOfWork.{Ended, committed, callback_failed, SessionFactory, IsAtomic}
use game01_server.Storage.{ok, Inserted, inserted, duplicate_key, keep, Collection, IsLawful}

module _ {D : Type 0} where
  unfoldable pub delete_where : Map String D → (D → Bool) → Map String D
  delete_where [] p = []
  delete_where ((k, d) ∷ m) p =
      let rest = delete_where m p in if p d then del rest k else (k, d) ∷ rest

  abbrev unless : (D → Bool) → Option D → Option D
  unless p none = none
  unless p (some d) = if p d then none else some d

  get-delete_where :
      (m : Map String D) (p : D → Bool) (k : String) → get (delete_where m p) k ≡ unless p (get m k)
  unfolding delete_where get
  get-delete_where [] p k = refl
  get-delete_where ((j, d) ∷ m) p k = elim (Bool-cases (p d)) [
    | inl hit ↦ elim (Bool-cases (str_eq j k)) [
      | inl here ↦ rw (hit, here) (rw (get-del (delete_where m p) j k, here, hit) refl)
      | inr other ↦
          rw (hit, other) (rw (get-del (delete_where m p) j k, other) (get-delete_where m p k))
    ]
    | inr miss ↦ elim (Bool-cases (str_eq j k)) [
      | inl here ↦ rw (miss, here) (rw miss refl)
      | inr other ↦ rw (miss, other) (get-delete_where m p k)
    ]
  ]

  deleted :
      (p : D → Bool) (o o' : Option D)
      → o' ≡ unless p o
      → (o' ≡ o) ⊎ ((d : D) × (keep p o ≡ some d) × (o' ≡ none))
  deleted p none o' e = inl e
  deleted p (some d) o' e = elim (Bool-cases (p d)) [
    | inl hit ↦ inr (d, ground (arith, hit), ground (arith, hit, e))
    | inr miss ↦ inl (ground (arith, miss, e))
  ]

  -- Insertion where the value of the field is free, an update where the document passes the test.
  abbrev put_new : Map String D → String → D → Option D → Map String D × Inserted
  put_new m k d none = (put m k d, inserted)
  put_new m k d (some old) = (m, duplicate_key)

  abbrev set :
      {B : Type 0}
      → Map String D
      → String
      → Option D
      → B
      → (D → Map String D × B)
      → Map String D × B
  set m k none b f = (m, b)
  set m k (some d) b f = f d

  -- The first of the listed keys whose document passes the test.
  unfoldable pub first_where : Map String D → Map String D → (D → Bool) → Option D
  first_where m [] p = none
  first_where m ((k, d) ∷ rest) p =
      let later = first_where m rest p in
      elim (keep p (get m k)) [ some found ↦ some found | none ↦ later ]

  keep-holds :
      (p : D → Bool) (o : Option D) (d : D) → keep p o ≡ some d → (p d ≡ true) × (o ≡ some d)
  keep-holds p none d h = absurd (ground (arith, h))
  keep-holds p (some e) d h = elim (Bool-cases (p e)) [
    | inl hit ↦ (ap p (ground (arith, hit, h)) ∙ hit, ground (arith, hit, h))
    | inr miss ↦ absurd (ground (arith, miss, h))
  ]

  first_where-holds :
      (m rest : Map String D) (p : D → Bool) (d : D)
      → ok (first_where m rest p) ≡ ok (some d)
      → (p d ≡ true) × ((k : String) × (get m k ≡ some d))
  unfolding first_where
  first_where-holds m [] p d e = absurd (ground (arith, e))
  first_where-holds m ((k, d') ∷ rest) p d e = elim (Option-cases (keep p (get m k))) [
    | inl miss ↦ first_where-holds m rest p d (ground (arith, e, miss))
    | inr (f, hit) ↦
        let same : keep p (get m k) ≡ some d = ground (arith, e, hit) in
        let (holds, there) = keep-holds p (get m k) d same in (holds, (k, there))
  ]

module _ {D : Type 0} (key : D → String) where
  abbrev pub memory : Collection D
  memory = record {
    Store = Map String D;
    find_one = λ m k p. ok (keep p (get m k));
    find_where = λ m p. ok (first_where m m p);
    insert_one = λ m d. put_new m (key d) d (get m (key d));
    update_one = λ m k p f. set m k (keep p (get m k)) (ok 0) (λ d. (put m k (f d), ok 1));
    find_one_and_update =
        λ m k p f. set m k (keep p (get m k)) (ok none) (λ d. (put m k (f d), ok (some (f d))));
    replace_one = λ m d. (put m (key d) d, ok 1);
    delete_one = λ m k p. set m k (keep p (get m k)) (ok 0) (λ d. (del m k, ok 1));
    delete_many = λ m p. (delete_where m p, ok 0);
  }

  pub memory-IsLawful : IsLawful memory key
  memory-IsLawful = record {
    document = λ m k. get m k;
    find_ok = λ m k p o e. ground (arith, e);
    find_where_ok = λ m p d e. first_where-holds m m p d e;
    insert_other = λ m d j ne. ground (arith, get-put m (key d) d j, eq_iff (key d) j);
    insert_ok = λ m d e. ground (arith, get-put m (key d) d (key d), eq_iff (key d) (key d));
    insert_duplicate = λ m d e. ground arith;
    insert_any = λ m d. ground (arith, get-put m (key d) d (key d), eq_iff (key d) (key d));
    update_other = λ m k p f j ne. elim (Option-cases (keep p (get m k))) [
      | inl no_match ↦ ground (arith, no_match)
      | inr (d, match) ↦ ground (arith, match, get-put m k (f d) j, eq_iff k j)
    ];
    update_ok = λ m k p f n e. elim (Option-cases (keep p (get m k))) [
      | inl no_match ↦ ground (arith, no_match, e)
      | inr (d, match) ↦ ground (arith, match, e, get-put m k (f d) k, eq_iff k k)
    ];
    update_any = λ m k p f. elim (Option-cases (keep p (get m k))) [
      | inl no_match ↦ ground (arith, no_match)
      | inr (d, match) ↦ ground (arith, match, get-put m k (f d) k, eq_iff k k)
    ];
    modify_other = λ m k p f j ne. elim (Option-cases (keep p (get m k))) [
      | inl no_match ↦ ground (arith, no_match)
      | inr (d, match) ↦ ground (arith, match, get-put m k (f d) j, eq_iff k j)
    ];
    modify_ok = λ m k p f o e. elim (Option-cases (keep p (get m k))) [
      | inl no_match ↦ ground (arith, no_match, e)
      | inr (d, match) ↦ ground (arith, match, e, get-put m k (f d) k, eq_iff k k)
    ];
    modify_any = λ m k p f. elim (Option-cases (keep p (get m k))) [
      | inl no_match ↦ ground (arith, no_match)
      | inr (d, match) ↦ ground (arith, match, get-put m k (f d) k, eq_iff k k)
    ];
    replace_other = λ m d j ne. ground (arith, get-put m (key d) d j, eq_iff (key d) j);
    replace_ok = λ m d n e. ground (arith, get-put m (key d) d (key d), eq_iff (key d) (key d));
    delete_other = λ m k p j ne. elim (Option-cases (keep p (get m k))) [
      | inl no_match ↦ ground (arith, no_match)
      | inr (d, match) ↦ ground (arith, match, get-del m k j, eq_iff k j)
    ];
    delete_ok = λ m k p n e. elim (Option-cases (keep p (get m k))) [
      | inl no_match ↦ ground (arith, no_match, e)
      | inr (d, match) ↦ ground (arith, match, e, get-del m k k, eq_iff k k)
    ];
    delete_any = λ m k p. elim (Option-cases (keep p (get m k))) [
      | inl no_match ↦ ground (arith, no_match)
      | inr (d, match) ↦ ground (arith, match, get-del m k k, eq_iff k k)
    ];
    delete_many_any = λ m p k. deleted p (get m k) _ (get-delete_where m p k);
  }

  pub memory-IsLawful-document :
      (m : Map String D) (k : String) → memory-IsLawful.document m k ≡ get m k
  unfolding memory-IsLawful
  memory-IsLawful-document m k = refl

-- Transactions of a store in memory: a callback with an error is undone.
module _ {W E : Type 0} where
  abbrev pub ended : W → W × Option E → W × Ended E
  ended w (w', none) = (w', committed)
  ended w (w', some e) = (w, callback_failed e)

  abbrev pub memory_sessions : SessionFactory W E
  memory_sessions = record { start = λ w. none; with_transaction = λ w f. ended w (f w) }

  pub memory_sessions-IsAtomic : IsAtomic memory_sessions
  memory_sessions-IsAtomic = record {
    commit_ok = λ w f h. elim (Option-cases (f w).1) [
      | inl fine ↦ ground (arith, fine, h)
      | inr (e, bad) ↦ absurd (ground (arith, bad, h))
    ];
    callback_error = λ w f e h. elim (Option-cases (f w).1) [
      | inl fine ↦ absurd (ground (arith, fine, h))
      | inr (d, bad) ↦ ground (arith, bad, h)
    ];
    driver_error = λ w f n h. elim (Option-cases (f w).1) [
      | inl fine ↦ absurd (ground (arith, fine, h))
      | inr (d, bad) ↦ absurd (ground (arith, bad, h))
    ];
  }
