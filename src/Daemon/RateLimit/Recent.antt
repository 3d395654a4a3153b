-- ===== src/Daemon/RateLimit/Recent.antt =====
-- How many events lie behind a cutoff, in the log budget of crates/core/src/daemon.rs.
use tron_hawk.Common.{
  ℕ, zero, suc, ◌+◌, ◌≤◌, ◌≡◌, refl, ap, List, [], ◌∷◌, ◌++◌, length, replicate, All, ltb, leb,
  arith, Bool-cases, inl, inr, if◌then◌else◌,
}
use tron_hawk.Daemon.RateLimit.{drop_old}

-- How many of the times lie behind the cutoff.
unfoldable pub recent : ℕ → List ℕ → ℕ
recent cutoff [] = 0
recent cutoff (t ∷ ts) = if ltb cutoff t then suc (recent cutoff ts) else recent cutoff ts

pub recent-append : (c : ℕ) (xs ys : List ℕ) → recent c (xs ++ ys) ≡ recent c xs + recent c ys
unfolding recent
recent-append c [] ys = ground arith
recent-append c (x ∷ xs) ys = ground (arith, recent-append c xs ys)

pub recent-le : (c : ℕ) (xs : List ℕ) → recent c xs ≤ length xs
unfolding recent
recent-le c [] = ground arith
recent-le c (x ∷ xs) = ground (arith, recent-le c xs)

pub recent-drop_old : (c d : ℕ) (xs : List ℕ) → d ≤ c → recent c (drop_old d xs) ≡ recent c xs
unfolding recent drop_old
recent-drop_old c d [] h = refl
recent-drop_old c d (x ∷ xs) h = ground (arith, recent-drop_old c d xs)

pub recent-old : (c m : ℕ) (xs : List ℕ) → All (λ t. t ≤ m) xs → m ≤ c → recent c xs ≡ 0
unfolding recent
recent-old c m [] a h = refl
recent-old c m (x ∷ xs) a h = ground (arith, recent-old c m xs a.1 h)

pub drop_old-All : (d m : ℕ) (xs : List ℕ) → All (λ t. t ≤ m) xs → All (λ t. t ≤ m) (drop_old d xs)
unfolding drop_old
drop_old-All d m [] a = tt
drop_old-All d m (x ∷ xs) a = elim (Bool-cases (leb x d)) [
  | inl old ↦ rw old (drop_old-All d m xs a.1)
  | inr young ↦ rw young a
]

pub drop_old-le : (d : ℕ) (xs : List ℕ) → length (drop_old d xs) ≤ length xs
unfolding drop_old
drop_old-le d [] = ground arith
drop_old-le d (x ∷ xs) = ground (arith, drop_old-le d xs)

pub length-replicate : (n t : ℕ) → length (replicate n t) ≡ n
length-replicate zero t = refl
length-replicate (suc n) t = ap suc (length-replicate n t)

pub replicate-All : (n t m : ℕ) → t ≤ m → All (λ x. x ≤ m) (replicate n t)
replicate-All zero t m h = tt
replicate-All (suc n) t m h = (h, replicate-All n t m h)

pub later-All : (m k : ℕ) (xs : List ℕ) → m ≤ k → All (λ t. t ≤ m) xs → All (λ t. t ≤ k) xs
later-All m k [] h a = tt
later-All m k (x ∷ xs) h a = (let b = a.0 in omega arith, later-All m k xs h a.1)
