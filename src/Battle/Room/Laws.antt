-- ===== src/Battle/Room/Laws.antt =====
-- What the operations of a room keep (services/battle/domain/room.go), and when two players are the
-- same to the code.
use game01_server.Prelude.{ℕ, ◌≡◌, ◌⊎◌, inl, inr, true, some, ◌∷◌, String, arith}
use game01_server.Prelude.Tests.{and_split, and_join}
use game01_server.Prelude.Eq.{string_eq, str_eq, eq_iff}
use game01_server.Prelude.Maps.{Map, get, put, get-put, Distinct, put-Distinct}
use game01_server.Prelude.Int.{ℤ, eqb_ℤ}
use game01_server.Battle.Room.{PlayerState, player_eq, float_eq}

-- Every player stands once, under its own id.
abbrev pub IsKeyed : Map String PlayerState → Type 0
IsKeyed m = Distinct m × ((k : String) (p : PlayerState) → get m k ≡ some p → p.player_id ≡ k)

pub IsKeyed-tail :
    (k : String) (p : PlayerState) (m : Map String PlayerState)
    → IsKeyed ((k, p) ∷ m)
    → IsKeyed m × (p.player_id ≡ k)
unfolding get
IsKeyed-tail k p m (d, keyed) = ((d.1, below), keyed k p (ground (arith, eq_iff k k)))
  where
    below : (j : String) (q : PlayerState) → get m j ≡ some q → q.player_id ≡ j
    below j q e = ground (arith, d.0, eq_iff k j, keyed j q)

pub put-IsKeyed :
    (m : Map String PlayerState) (p : PlayerState) → IsKeyed m → IsKeyed (put m p.player_id p)
put-IsKeyed m p (d, keyed) = (put-Distinct m p.player_id p d, own)
  where
    own : (k : String) (q : PlayerState) → get (put m p.player_id p) k ≡ some q → q.player_id ≡ k
    own k q e = ground (arith, get-put m p.player_id p k, eq_iff p.player_id k, keyed k q)

-- Equal to the code, or the same value (a NaN coordinate is not equal to itself).
abbrev pub Same : PlayerState → PlayerState → Type 0
Same p q = (p ≡ q) ⊎ (player_eq p q ≡ true)

float_eq_trans : (a b c : ℕ) → float_eq a b ≡ true → float_eq b c ≡ true → float_eq a c ≡ true
float_eq_trans a b c h k = ground arith

str_eq_trans : (a b c : String) → str_eq a b ≡ true → str_eq b c ≡ true → str_eq a c ≡ true
str_eq_trans a b c h k = ground (arith, eq_iff a b, eq_iff b c, eq_iff a c)

eqb_ℤ_trans : (a b c : ℤ) → eqb_ℤ a b ≡ true → eqb_ℤ b c ≡ true → eqb_ℤ a c ≡ true
eqb_ℤ_trans a b c h k = ground arith

pub player_eq_trans :
    (p q r : PlayerState) → player_eq p q ≡ true → player_eq q r ≡ true → player_eq p r ≡ true
unfolding player_eq
player_eq_trans p q r h k =
    let (h₁, h') = and_split _ _ h in
    let (h₂, h'') = and_split _ _ h' in
    let (h₃, h₄) = and_split _ _ h'' in
    let (k₁, k') = and_split _ _ k in
    let (k₂, k'') = and_split _ _ k' in
    let (k₃, k₄) = and_split _ _ k'' in
    and_join (str_eq_trans p.player_id q.player_id r.player_id h₁ k₁) (
      and_join (eqb_ℤ_trans p.hp q.hp r.hp h₂ k₂) (
        and_join (float_eq_trans p.position_x q.position_x r.position_x h₃ k₃)
          (float_eq_trans p.position_y q.position_y r.position_y h₄ k₄)))

pub Same-trans : (p q r : PlayerState) → Same p q → Same q r → Same p r
Same-trans p q r (inl e) k = rw e k
Same-trans p q r (inr h) (inl e) = inr (rw (← e) h)
Same-trans p q r (inr h) (inr k) = inr (player_eq_trans p q r h k)
