-- ===== src/Reliability/TokenBucket/Laws.antt =====
-- What the token bucket keeps (common/reliability/token_bucket.go).
use game01_server.Prelude.{
  ℕ, zero, suc, ◌≡◌, ◌≤◌, ◌<◌, ◌+◌, ◌-◌, ◌⊎◌, inl, inr, refl, Bool, true, false, Option, some, List,
  [], ◌∷◌, arith,
}
use game01_server.Prelude.Tests.{Bool-cases, if◌then◌else◌}
use game01_server.Prelude.Int.{ℤ, pos, pos_part, leb_ℤ}
use game01_server.Reliability.TokenBucket.{
  Float, IsLawful, Bucket, new_token_bucket, refill, take_tokens, allow_n, allow, wait,
}

-- From 0 to the capacity, and a rate that is not negative.
pub record IsFilled (f : Float) (b : Bucket f) : Type 0 where
  pub rate_nonneg : f.leb_num (f.of_int 0) b.rate ≡ true
  pub tokens_nonneg : f.leb_num (f.of_int 0) b.tokens ≡ true
  pub tokens_capped : f.leb_num b.tokens b.capacity ≡ true

module _ (f : Float) (law : IsLawful f) where
  le_refl : (a : f.Num) → f.leb_num a a ≡ true
  le_refl a = ground (arith, law.total a a)

  -- What has been earned since `last`, and the sum with the tokens.
  earned : Bucket f → ℕ → f.Num
  earned b now = f.mul (f.seconds (now - b.last)) b.rate

  earned_nonneg :
      (b : Bucket f) (now : ℕ) → IsFilled f b → f.leb_num (f.of_int 0) (earned b now) ≡ true
  unfolding earned
  earned_nonneg b now v = law.mul_nonneg _ _ (law.seconds_nonneg (now - b.last)) v.rate_nonneg

  -- The clock never takes `last` back, the sizes do not change and no token is lost.
  refill_lem :
      (b : Bucket f) (now : ℕ)
      → IsFilled f b
      → IsFilled f (refill f b now)
        × (b.last ≤ (refill f b now).last)
        × ((refill f b now).capacity ≡ b.capacity)
        × (f.leb_num b.tokens (refill f b now).tokens ≡ true)
  unfolding refill earned
  refill_lem b now v =
      let filled : f.Num = f.add b.tokens (f.mul (f.seconds (now - b.last)) b.rate) in
      let grown = law.add_grows b.tokens _ (earned_nonneg b now v) in
      ground (
        arith,
        v,
        grown,
        law.trans (f.of_int 0) b.tokens filled v.tokens_nonneg grown,
        law.trans (f.of_int 0) b.tokens b.capacity v.tokens_nonneg v.tokens_capped,
        le_refl b.capacity,
        le_refl b.tokens,
      )

  take_tokens-IsFilled :
      (b : Bucket f) (n now : ℕ) → IsFilled f b → IsFilled f (take_tokens f b n now).0
  unfolding take_tokens
  take_tokens-IsFilled b n now v =
      let (w, _, _, _) = refill_lem b now v in
      let b' : Bucket f = refill f b now in
      let left : f.Num = f.sub b'.tokens (f.of_int n) in
      let shrunk = law.sub_shrinks b'.tokens (f.of_int n) (law.of_int_nonneg n) in
      ground (
        arith,
        w,
        law.sub_nonneg b'.tokens (f.of_int n),
        law.trans left b'.tokens b'.capacity shrunk w.tokens_capped,
      )

  new_token_bucket-IsFilled :
      (capacity : ℤ) (rate : f.Num) (now : ℕ) (observer : Bool)
      → IsFilled f (new_token_bucket f capacity rate now observer)
  unfolding new_token_bucket
  new_token_bucket-IsFilled capacity rate now observer = ground (
    arith,
    law.total (f.of_int 0) rate,
    law.of_int_nonneg (pos_part capacity),
    law.of_int_nonneg 1,
    le_refl (f.of_int (pos_part capacity)),
    le_refl (f.of_int 1),
  )

  -- One call of `AllowN` with a count above 0 on a bucket in range: the bucket stays in range, keeps
  -- its capacity and never sets its clock back; the call is allowed exactly if the tokens, refilled up
  -- to now, reach the count; and a call that is not allowed loses no token.
  pub allow_n_lem :
      (b : Bucket f) (n now : ℕ)
      → IsFilled f b
      → (b' : Bucket f) × ((allow_n f (some b) (pos (suc n)) now).0 ≡ some b')
        × IsFilled f b'
        × (b'.capacity ≡ b.capacity)
        × (b.last ≤ b'.last)
        × ((allow_n f (some b) (pos (suc n)) now).1
            ≡ f.leb_num (f.of_int (suc n)) (refill f b now).tokens)
        × (((allow_n f (some b) (pos (suc n)) now).1 ≡ true)
            ⊎ (f.leb_num b.tokens b'.tokens ≡ true))
  unfolding allow_n take_tokens
  allow_n_lem b n now v =
      let (w, later, size, kept) = refill_lem b now v in
      (
        (take_tokens f b (suc n) now).0,
        ground arith,
        take_tokens-IsFilled b (suc n) now v,
        ground (arith, size),
        ground (arith, later),
        ground arith,
        ground (arith, kept),
      )

  -- One call of `AllowN` of a row.
  abbrev pub call : Bucket f → ℤ → ℕ → Bucket f
  call b n now = if leb_ℤ n (pos 0) then b else (take_tokens f b (pos_part n) now).0

  call-IsFilled : (b : Bucket f) (n : ℤ) (now : ℕ) → IsFilled f b → IsFilled f (call b n now)
  call-IsFilled b n now v = elim (Bool-cases (leb_ℤ n (pos 0))) [
    | inl e ↦ rw e v
    | inr e ↦ rw e (take_tokens-IsFilled b (pos_part n) now v)
  ]

  -- The bucket after a row of calls, each with its count and its time.
  pub after_calls : Bucket f → List (ℤ × ℕ) → Bucket f
  after_calls b [] = b
  after_calls b ((n, now) ∷ calls) = after_calls (call b n now) calls

  after_calls-IsFilled_from :
      (b : Bucket f) (calls : List (ℤ × ℕ)) → IsFilled f b → IsFilled f (after_calls b calls)
  unfolding after_calls
  after_calls-IsFilled_from b [] v = v
  after_calls-IsFilled_from b ((n, now) ∷ calls) v =
      after_calls-IsFilled_from (call b n now) calls (call-IsFilled b n now v)

  -- After any calls on a new bucket, at any times and for any counts, there are never less than 0
  -- tokens nor more than the capacity.
  pub after_calls-IsFilled :
      (capacity : ℤ) (rate : f.Num) (now : ℕ) (observer : Bool) (calls : List (ℤ × ℕ))
      → IsFilled f (after_calls (new_token_bucket f capacity rate now observer) calls)
  after_calls-IsFilled capacity rate now observer calls =
      after_calls-IsFilled_from _ calls (new_token_bucket-IsFilled capacity rate now observer)

module _ (f : Float) (clock : ℕ → ℕ) (cancelled : ℕ → Bool) where
  -- `Wait` returns if its context ends: `d` rounds ahead, with fuel above `d`.
  pub wait_total :
      (fuel round d : ℕ) (b : Option (Bucket f))
      → cancelled (round + d) ≡ true
      → d < fuel
      → (r : Option (Bucket f) × Bool) × (wait f fuel clock cancelled round b ≡ some r)
  unfolding wait
  wait_total zero round d b h lt = absurd (omega arith)
  wait_total (suc fuel) round zero b h lt =
      let e : round + 0 ≡ round = omega arith in
      let now = rw e at h in
      elim (Bool-cases (allow f b (clock round)).1) [
        | inl granted ↦ (((allow f b (clock round)).0, true), rw granted refl)
        | inr denied ↦ (((allow f b (clock round)).0, false), rw (denied, now) refl)
      ]
  wait_total (suc fuel) round (suc d) b h lt =
      let e : round + suc d ≡ suc round + d = omega arith in
      let later =
        wait_total fuel (suc round) d (allow f b (clock round)).0 (rw e at h) (omega arith) in
      elim (Bool-cases (allow f b (clock round)).1) [
        | inl granted ↦ (((allow f b (clock round)).0, true), rw granted refl)
        | inr denied ↦ elim (Bool-cases (cancelled round)) [
          | inl over ↦ (((allow f b (clock round)).0, false), rw (denied, over) refl)
          | inr waits ↦ (later.0, rw (denied, waits) later.1)
        ]
      ]
