-- ===== src/Reliability/TokenBucket.antt =====
-- common/reliability/token_bucket.go. Its float64 numbers and their operations are a parameter,
-- `Float`, with the laws of IEEE arithmetic that the proofs use, on numbers that are not NaN. A time is
-- a number of nanoseconds; each call takes the clock reading that it makes.
pub mod Laws
mod Examples
use game01_server.Prelude.{
  ℕ, zero, suc, ◌-◌, ◌≡◌, ◌⊎◌, Bool, true, false, ◌||◌, Option, none, some, List, [], ◌∷◌, ◌++◌,
}
use game01_server.Prelude.Tests.{ltb, if◌then◌else◌}
use game01_server.Prelude.Int.{ℤ, pos, leb_ℤ, ltb_ℤ, pos_part}

pub record Float : Type 1 where
  pub Num : Type 0
  pub of_int : ℕ → Num
  pub add : Num → Num → Num
  pub sub : Num → Num → Num
  pub mul : Num → Num → Num
  pub leb_num : Num → Num → Bool
  -- A duration in nanoseconds as seconds.
  pub seconds : ℕ → Num

-- What the proofs use of float64: comparison is a total order of the numbers that are not NaN, sums and
-- products of numbers that are not negative are not negative, and a difference of such numbers lies
-- between 0 and its first.
pub record IsLawful (f : Float) : Type 0 where
  pub total : (a b : f.Num) → (f.leb_num a b ≡ true) ⊎ (f.leb_num b a ≡ true)
  pub trans : (a b c : f.Num) → f.leb_num a b ≡ true → f.leb_num b c ≡ true → f.leb_num a c ≡ true
  pub of_int_nonneg : (n : ℕ) → f.leb_num (f.of_int 0) (f.of_int n) ≡ true
  pub seconds_nonneg : (n : ℕ) → f.leb_num (f.of_int 0) (f.seconds n) ≡ true
  pub add_grows : (a b : f.Num) → f.leb_num (f.of_int 0) b ≡ true → f.leb_num a (f.add a b) ≡ true
  pub mul_nonneg :
      (a b : f.Num)
      → f.leb_num (f.of_int 0) a ≡ true
      → f.leb_num (f.of_int 0) b ≡ true
      → f.leb_num (f.of_int 0) (f.mul a b) ≡ true
  pub sub_nonneg : (a b : f.Num) → f.leb_num b a ≡ true → f.leb_num (f.of_int 0) (f.sub a b) ≡ true
  pub sub_shrinks : (a b : f.Num) → f.leb_num (f.of_int 0) b ≡ true → f.leb_num (f.sub a b) a ≡ true

module _ (f : Float) where
  open f use {Num, of_int, add, sub, mul, leb_num, seconds}

  pub record Bucket : Type 0 where
    pub capacity : Num
    pub rate : Num
    pub tokens : Num
    pub last : ℕ
    pub observer : Bool

  -- `a > b`
  abbrev pub gtb_num : Num → Num → Bool
  gtb_num a b = if leb_num a b then false else true

  unfoldable pub new_token_bucket : ℤ → Num → ℕ → Bool → Bucket
  new_token_bucket capacity refill_per_second now observer =
      let size : Num = of_int (if ltb_ℤ capacity (pos 1) then 1 else pos_part capacity) in
      record {
        capacity = size;
        rate = if leb_num refill_per_second (of_int 0) then size else refill_per_second;
        tokens = size;
        last = now;
        observer = observer;
      }

  unfoldable pub refill : Bucket → ℕ → Bucket
  refill b now =
      let filled = add b.tokens (mul (seconds (now - b.last)) b.rate) in
      if ltb b.last now
      then record b {
        tokens = if gtb_num filled b.capacity then b.capacity else filled;
        last = now;
      }
      else b

  -- `AllowN` on a bucket with `n` above 0: the verdict, and what the observer is told.
  unfoldable pub take_tokens : Bucket → ℕ → ℕ → Bucket × Bool × List Bool
  unfolding refill
  take_tokens b n now =
      let b' = refill b now in
      let allowed = leb_num (of_int n) b'.tokens in
      (
        if allowed then record b' { tokens = sub b'.tokens (of_int n) } else b',
        allowed,
        if b.observer then allowed ∷ [] else [],
      )

  unfoldable pub allow_n : Option Bucket → ℤ → ℕ → Option Bucket × Bool × List Bool
  unfolding take_tokens
  allow_n none n now = (none, true, [])
  allow_n (some b) n now =
      let (b', allowed, told) = take_tokens b (pos_part n) now in
      if leb_ℤ n (pos 0) then (some b, true, []) else (some b', allowed, told)

  -- `Allow`
  unfoldable pub allow : Option Bucket → ℕ → Option Bucket × Bool × List Bool
  unfolding allow_n
  allow b now = allow_n b (pos 1) now

  -- `Wait`, with the clock reading of each round; `cancelled` says whether the context ends in the
  -- wait after a round. `none` where the fuel runs out, else whether a token was taken.
  unfoldable pub wait : ℕ → (ℕ → ℕ) → (ℕ → Bool) → ℕ → Option Bucket → Option (Option Bucket × Bool)
  unfolding allow
  wait zero clock cancelled round b = none
  wait (suc fuel) clock cancelled round b =
      let (b', allowed, told) = allow b (clock round) in
      let later = wait fuel clock cancelled (suc round) b' in
      if allowed then some (b', true) else (if cancelled round then some (b', false) else later)
