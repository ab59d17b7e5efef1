-- ===== src/Storage.antt =====
-- The MongoDB collections that the repositories use, as an interface: the calls of the driver, and what its
-- documentation promises of them. A call may fail, and then its effect may have taken place or not. A filter is a value of
-- the collection's unique field with a test on the rest of the document; an update is a function of the document.
pub mod Memory
pub mod UnitOfWork
use game01_server.Prelude.{ℕ, ◌≡◌, ◌≢◌, ◌⊎◌, Bool, true, false, Option, none, some, String}
use game01_server.Prelude.Tests.{if◌then◌else◌}

pub data Reply {ℓ} (A : Type ℓ) : Type ℓ where
  ok : A → Reply A
  failed : ℕ → Reply A

pub data Inserted : Type 0 where
  inserted duplicate_key : Inserted
  insert_failed : ℕ → Inserted

-- The document, if it passes the test.
abbrev pub keep {ℓ} : {D : Type ℓ} → (D → Bool) → Option D → Option D
keep p none = none
keep p (some d) = if p d then some d else none

pub record Collection (D : Type 0) : Type 1 where
  pub Store : Type 0
  pub find_one : Store → String → (D → Bool) → Reply (Option D)
  -- By fields other than the unique one.
  pub find_where : Store → (D → Bool) → Reply (Option D)
  pub insert_one : Store → D → Store × Inserted
  -- The number of documents that matched.
  pub update_one : Store → String → (D → Bool) → (D → D) → Store × Reply ℕ
  -- The document after the update.
  pub find_one_and_update : Store → String → (D → Bool) → (D → D) → Store × Reply (Option D)
  -- With `SetUpsert(true)`.
  pub replace_one : Store → D → Store × Reply ℕ
  -- The number of documents that were deleted.
  pub delete_one : Store → String → (D → Bool) → Store × Reply ℕ
  pub delete_many : Store → (D → Bool) → Store × Reply ℕ

-- The laws, by the document that a store has under each value of the unique field `key`.
pub record IsLawful {D : Type 0} (c : Collection D) (key : D → String) : Type 0 where
  pub document : c.Store → String → Option D
  pub find_ok :
      (s : c.Store) (k : String) (p : D → Bool) (o : Option D)
      → c.find_one s k p ≡ ok o
      → o ≡ keep p (document s k)
  pub find_where_ok :
      (s : c.Store) (p : D → Bool) (d : D)
      → c.find_where s p ≡ ok (some d)
      → (p d ≡ true) × ((k : String) × (document s k ≡ some d))
  pub insert_other :
      (s : c.Store) (d : D) (j : String)
      → key d ≢ j
      → document (c.insert_one s d).0 j ≡ document s j
  pub insert_ok :
      (s : c.Store) (d : D)
      → (c.insert_one s d).1 ≡ inserted
      → (document s (key d) ≡ none) × (document (c.insert_one s d).0 (key d) ≡ some d)
  pub insert_duplicate :
      (s : c.Store) (d : D) → (c.insert_one s d).1 ≡ duplicate_key → document s (key d) ≢ none
  pub insert_any :
      (s : c.Store) (d : D)
      → (document (c.insert_one s d).0 (key d) ≡ document s (key d))
        ⊎ ((document s (key d) ≡ none) × (document (c.insert_one s d).0 (key d) ≡ some d))
  pub update_other :
      (s : c.Store) (k : String) (p : D → Bool) (f : D → D) (j : String)
      → k ≢ j
      → document (c.update_one s k p f).0 j ≡ document s j
  pub update_ok :
      (s : c.Store) (k : String) (p : D → Bool) (f : D → D) (n : ℕ)
      → (c.update_one s k p f).1 ≡ ok n
      → ((keep p (document s k) ≡ none) × (n ≡ 0))
        ⊎ ((d : D) × (keep p (document s k) ≡ some d)
            × (n ≡ 1)
            × (document (c.update_one s k p f).0 k ≡ some (f d)))
  pub update_any :
      (s : c.Store) (k : String) (p : D → Bool) (f : D → D)
      → (document (c.update_one s k p f).0 k ≡ document s k)
        ⊎ ((d : D) × (keep p (document s k) ≡ some d)
            × (document (c.update_one s k p f).0 k ≡ some (f d)))
  pub modify_other :
      (s : c.Store) (k : String) (p : D → Bool) (f : D → D) (j : String)
      → k ≢ j
      → document (c.find_one_and_update s k p f).0 j ≡ document s j
  pub modify_ok :
      (s : c.Store) (k : String) (p : D → Bool) (f : D → D) (o : Option D)
      → (c.find_one_and_update s k p f).1 ≡ ok o
      → ((keep p (document s k) ≡ none) × (o ≡ none))
        ⊎ ((d : D) × (keep p (document s k) ≡ some d)
            × (o ≡ some (f d))
            × (document (c.find_one_and_update s k p f).0 k ≡ some (f d)))
  pub modify_any :
      (s : c.Store) (k : String) (p : D → Bool) (f : D → D)
      → (document (c.find_one_and_update s k p f).0 k ≡ document s k)
        ⊎ ((d : D) × (keep p (document s k) ≡ some d)
            × (document (c.find_one_and_update s k p f).0 k ≡ some (f d)))
  pub replace_other :
      (s : c.Store) (d : D) (j : String)
      → key d ≢ j
      → document (c.replace_one s d).0 j ≡ document s j
  pub replace_ok :
      (s : c.Store) (d : D) (n : ℕ)
      → (c.replace_one s d).1 ≡ ok n
      → document (c.replace_one s d).0 (key d) ≡ some d
  pub delete_other :
      (s : c.Store) (k : String) (p : D → Bool) (j : String)
      → k ≢ j
      → document (c.delete_one s k p).0 j ≡ document s j
  pub delete_ok :
      (s : c.Store) (k : String) (p : D → Bool) (n : ℕ)
      → (c.delete_one s k p).1 ≡ ok n
      → ((keep p (document s k) ≡ none) × (n ≡ 0))
        ⊎ ((d : D) × (keep p (document s k) ≡ some d)
            × (n ≡ 1)
            × (document (c.delete_one s k p).0 k ≡ none))
  pub delete_any :
      (s : c.Store) (k : String) (p : D → Bool)
      → (document (c.delete_one s k p).0 k ≡ document s k)
        ⊎ ((d : D) × (keep p (document s k) ≡ some d) × (document (c.delete_one s k p).0 k ≡ none))
  pub delete_many_any :
      (s : c.Store) (p : D → Bool) (k : String)
      → (document (c.delete_many s p).0 k ≡ document s k)
        ⊎ ((d : D) × (keep p (document s k) ≡ some d) × (document (c.delete_many s p).0 k ≡ none))
