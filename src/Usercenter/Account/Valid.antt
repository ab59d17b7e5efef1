-- ===== src/Usercenter/Account/Valid.antt =====
-- The methods of services/usercenter/domain/account.go leave an account valid.
use game01_server.Prelude.{
  ℕ, ◌≡◌, ◌∙◌, inl, inr, refl, false, ◌&&◌, ◌||◌, none, List, [], ◌∷◌, String, arith,
}
use game01_server.Prelude.Tests.{Bool-cases, Option-cases}
use game01_server.Prelude.Eq.{str_eq, eq_iff}
use game01_server.Prelude.Lists.{All}
use game01_server.Usercenter.Account.{
  Identity, validate_identity, Account, member, identity_key, validate_identities, validate_players,
  validate_account, find_identity, append, add_identity, has_player, link_player,
}

nothing : (seen : List String) → validate_players seen [] ≡ none
unfolding validate_players
nothing seen = refl

validate_players_cons :
    (seen : List String) (x : String) (xs : List String)
    → validate_players seen (x ∷ xs) ≡ none
    → (str_eq x "" ≡ false) × (member seen x ≡ false) × (validate_players (x ∷ seen) xs ≡ none)
unfolding validate_players
validate_players_cons seen x xs = elim (Bool-cases (str_eq x "")) [
  | inl blank ↦ rw (validate_players, blank) (λ h. absurd (ground (arith, h)))
  | inr named ↦ elim (Bool-cases (member seen x)) [
    | inl old ↦ rw (validate_players, named, old) (λ h. absurd (ground (arith, h)))
    | inr fresh ↦ rw (validate_players, named, fresh) (λ h. (refl, refl, h))
  ]
]

validate_players_join :
    (seen : List String) (x : String) (xs : List String)
    → str_eq x "" ≡ false
    → member seen x ≡ false
    → validate_players (x ∷ seen) xs ≡ none
    → validate_players seen (x ∷ xs) ≡ none
unfolding validate_players
validate_players_join seen x xs named fresh h = rw (named, fresh) h

member_cons :
    (x : String) (xs : List String) (k : String) → member (x ∷ xs) k ≡ (str_eq x k || member xs k)
unfolding member
member_cons x xs k = refl

validate_players-append :
    (seen xs : List String) (p : String)
    → validate_players seen xs ≡ none
    → member seen p ≡ false
    → member xs p ≡ false
    → str_eq p "" ≡ false
    → validate_players seen (append xs p) ≡ none
unfolding append
validate_players-append seen [] p valid fresh apart named =
    validate_players_join seen p [] named fresh (nothing (p ∷ seen))
validate_players-append seen (x ∷ xs) p valid fresh apart named =
    let (x_named, x_fresh, later) = validate_players_cons seen x xs valid in
    validate_players_join seen x (append xs p) x_named x_fresh (
      validate_players-append (x ∷ seen) xs p later
        (ground (arith, member_cons x seen p, member_cons x xs p, fresh, apart))
        (ground (arith, member_cons x xs p, apart)) named)

validate_identities_nil : (keys : List String) → validate_identities keys [] ≡ none
unfolding validate_identities
validate_identities_nil keys = refl

validate_identities_cons :
    (keys : List String) (i : Identity) (is : List Identity)
    → validate_identities keys (i ∷ is) ≡ none
    → (validate_identity i ≡ none)
      × (member keys (identity_key i) ≡ false)
      × (validate_identities (identity_key i ∷ keys) is ≡ none)
unfolding validate_identities
validate_identities_cons keys i is = elim (Option-cases (validate_identity i)) [
  | inr (e, bad) ↦ rw (validate_identities, bad) (λ h. absurd (ground (arith, h)))
  | inl good ↦ elim (Bool-cases (member keys (identity_key i))) [
    | inl old ↦ rw (validate_identities, good, old) (λ h. absurd (ground (arith, h)))
    | inr fresh ↦ rw (validate_identities, good, fresh) (λ h. (refl, refl, h))
  ]
]

validate_identities_join :
    (keys : List String) (i : Identity) (is : List Identity)
    → validate_identity i ≡ none
    → member keys (identity_key i) ≡ false
    → validate_identities (identity_key i ∷ keys) is ≡ none
    → validate_identities keys (i ∷ is) ≡ none
unfolding validate_identities
validate_identities_join keys i is good fresh h = rw (validate_identities, good, fresh) h

validate_identities-append :
    (keys : List String) (is : List Identity) (i : Identity)
    → validate_identities keys is ≡ none
    → member keys (identity_key i) ≡ false
    → All (λ j. str_eq (identity_key j) (identity_key i) ≡ false) is
    → validate_identity i ≡ none
    → validate_identities keys (append is i) ≡ none
unfolding append
validate_identities-append keys [] i valid fresh apart good =
    validate_identities_join keys i [] good fresh (validate_identities_nil (identity_key i ∷ keys))
validate_identities-append keys (j ∷ is) i valid fresh apart good =
    let (j_good, j_fresh, later) = validate_identities_cons keys j is valid in
    validate_identities_join keys j (append is i) j_good j_fresh (
      validate_identities-append (identity_key j ∷ keys) is i later
        (ground (arith, member_cons (identity_key j) keys (identity_key i), fresh, apart.0)) apart.1
        good)

-- An identity that is not found has a key of its own, where equal keys mean an equal provider and subject.
find_identity-none :
    (is : List Identity) (i : Identity)
    → find_identity is i.provider i.subject ≡ none
    → All
        (λ j. identity_key j ≡ identity_key i → (j.provider ≡ i.provider) × (j.subject ≡ i.subject))
        is
    → All (λ j. str_eq (identity_key j) (identity_key i) ≡ false) is
unfolding find_identity
find_identity-none [] i missing separate = tt
find_identity-none (j ∷ is) i missing separate =
    elim (Bool-cases (str_eq j.provider i.provider && str_eq j.subject i.subject)) [
      | inl same ↦ absurd (ground (arith, same, missing))
      | inr differ ↦ (
        elim (Bool-cases (str_eq (identity_key j) (identity_key i))) [
          | inr apart ↦ apart
          | inl equal ↦
              absurd
                (clash (separate.0 ((eq_iff (identity_key j) (identity_key i)).0 equal)) differ)
        ],
        find_identity-none is i (ground (arith, differ, missing)) separate.1,
      )
    ]
  where
    clash :
        (j.provider ≡ i.provider) × (j.subject ≡ i.subject)
        → (str_eq j.provider i.provider && str_eq j.subject i.subject) ≡ false
        → ⊥
    clash (p, q) h =
        ground (arith, (eq_iff j.provider i.provider).1 p, (eq_iff j.subject i.subject).1 q, h)

validate_account_parts :
    (a : Account)
    → validate_account a ≡ none
    → (str_eq a.id "" ≡ false)
      × (validate_identities [] a.identities ≡ none)
      × (validate_players [] a.player_ids ≡ none)
unfolding validate_account
validate_account_parts a = elim (Bool-cases (str_eq a.id "")) [
  | inl blank ↦ rw (validate_account, blank) (λ h. absurd (ground (arith, h)))
  | inr named ↦ elim (Option-cases (validate_identities [] a.identities)) [
    | inr (e, bad) ↦ rw (validate_account, named, bad) (λ h. absurd (ground (arith, h)))
    | inl good ↦ rw (validate_account, named, good) (λ h. (refl, refl, h))
  ]
]

validate_account_join :
    (a : Account)
    → str_eq a.id "" ≡ false
    → validate_identities [] a.identities ≡ none
    → validate_players [] a.player_ids ≡ none
    → validate_account a ≡ none
unfolding validate_account
validate_account_join a named good h = rw (validate_account, named, good) h

no_member : (k : String) → member [] k ≡ false
unfolding member
no_member k = refl

validate_identity_owner :
    (i : Identity) (owner : String)
    → validate_identity (record i { account_id = owner }) ≡ validate_identity i
unfolding validate_identity
validate_identity_owner i owner = refl

-- `AddIdentity` leaves a valid account valid, where it is accepted and where it is refused, provided that an identity of the
-- account with the key of the new one has its provider and its subject. (A zero byte in a provider can break this.)
pub add_identity_valid :
    (a : Account) (i : Identity)
    → validate_account a ≡ none
    → All
        (λ j. identity_key j ≡ identity_key i → (j.provider ≡ i.provider) × (j.subject ≡ i.subject))
        a.identities
    → validate_account (add_identity a i).0 ≡ none
unfolding add_identity identity_key
add_identity_valid a i valid separate = elim (Option-cases (validate_identity i)) [
  | inr (e, bad) ↦ rw (add_identity, bad) valid
  | inl good ↦ elim (Option-cases (find_identity a.identities i.provider i.subject)) [
    | inr (j, there) ↦ rw (add_identity, good, there) valid
    | inl missing ↦
        rw (add_identity, good, missing)
          (let (named, identities, players) = validate_account_parts a valid in
            validate_account_join
              (record a { identities = append a.identities (record i { account_id = a.id }) }) named
              (validate_identities-append [] a.identities (record i { account_id = a.id })
                identities (no_member (identity_key i))
                (find_identity-none a.identities i missing separate)
                (validate_identity_owner i a.id ∙ good))
              players)
  ]
]

not_linked :
    (a : Account) (p : String)
    → str_eq p "" ≡ false
    → has_player a p ≡ false
    → member a.player_ids p ≡ false
unfolding has_player
not_linked a p named h = ground (arith, named, h)

-- `LinkPlayer` leaves a valid account valid, where it is accepted and where it is refused.
pub link_player_valid :
    (a : Account) (p : String) (now : ℕ)
    → validate_account a ≡ none
    → validate_account (link_player a p now).0 ≡ none
unfolding link_player
link_player_valid a p now valid = elim (Bool-cases (str_eq a.id "" || str_eq p "")) [
  | inl bad ↦ rw bad valid
  | inr good ↦ elim (Bool-cases (has_player a p)) [
    | inl linked ↦ rw (good, linked) valid
    | inr apart ↦
        rw (good, apart)
          (let (named, identities, players) = validate_account_parts a valid in
            let fresh : str_eq p "" ≡ false = ground (arith, good) in
            validate_account_join
              (record a { player_ids = append a.player_ids p; updated_at = now }) named identities
              (validate_players-append [] a.player_ids p players (no_member p)
                (not_linked a p fresh apart) fresh))
  ]
]
