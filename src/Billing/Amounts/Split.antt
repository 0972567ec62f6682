-- ===== src/Billing/Amounts/Split.antt =====
-- What the split of an amount into installments guarantees (installment_calculator.go).
use pontoqap.Base.{
  ℕ, zero, suc, ◌+◌, ◌-◌, ◌*◌, ◌/◌, ◌%◌, ◌<◌, ◌≡◌, ◌∙◌, refl, ap, List, [], ◌∷◌, ◌++◌, arith, sum,
  length, replicate, length-append, length-replicate, sum-append, sum-replicate, get_elem?, some,
  ltb, if◌then◌else◌, false,
}
use native.Mathlib.Nat.{div-add-mod, mod-lt}
use mathlib.Core.Path.{subst}
use pontoqap.Billing.Amounts.{bump_from, distribute_installment_amounts}

length-bump_from : (from : ℕ) (xs : List ℕ) → length (bump_from from xs) ≡ length xs
unfolding bump_from
length-bump_from from [] = refl
length-bump_from zero (x ∷ xs) = ap suc (length-bump_from zero xs)
length-bump_from (suc from) (x ∷ xs) = ap suc (length-bump_from from xs)

bump_all : (n base : ℕ) → bump_from zero (replicate n base) ≡ replicate n (base + 1)
unfolding bump_from
bump_all zero base = refl
bump_all (suc n) base = ap (λ xs. (base + 1) ∷ xs) (bump_all n base)

-- The loops together leave `k` cells at the quotient and the other `m` one cent higher.
bump-split :
    (k m base : ℕ)
    → bump_from k (replicate (k + m) base) ≡ replicate k base ++ replicate m (base + 1)
unfolding bump_from
bump-split zero m base = rw Prim.Native.Nat.add.zero (bump_all m base)
bump-split (suc k) m base = rw Prim.Native.Nat.add.suc (ap (λ xs. base ∷ xs) (bump-split k m base))

ltb→le' : (count : ℕ) → 0 < count → ltb count 1 ≡ false
ltb→le' count h = ground arith

-- With at least one part, the split is a block of quotients followed by the extra cents.
pub distribute-blocks :
    (total count : ℕ)
    → 0 < count
    → distribute_installment_amounts total count
      ≡ replicate (count - total % count) (total / count)
        ++ replicate (total % count) (total / count + 1)
unfolding distribute_installment_amounts
distribute-blocks total count h =
    let k = count - total % count in
    let m = total % count in
    let whole : k + m ≡ count = grind arith in
    rw (ltb→le' count h) (
      subst
        (λ n.
          bump_from k (replicate n (total / count))
          ≡ replicate k (total / count) ++ replicate m (total / count + 1))
        whole (bump-split k m (total / count)))

blocks_total : (k m q : ℕ) → k * q + m * (q + 1) ≡ (k + m) * q + m
blocks_total k m q = omega arith

parts_total :
    (total count : ℕ)
    → 0 < count
    → (count - total % count) * (total / count) + total % count * (total / count + 1) ≡ total
parts_total total count h =
    let k = count - total % count in
    let m = total % count in
    let q = total / count in
    let whole : k + m ≡ count = omega (arith, mod-lt total h) in
    blocks_total k m q ∙ ap (λ (n : ℕ). n * q + m) whole ∙ div-add-mod total count

get_elem?-blocks :
    (k m a b i : ℕ)
    → i < k + m
    → get_elem? (replicate k a ++ replicate m b) i ≡ some (if ltb i k then a else b)
get_elem?-blocks zero zero a b i h = absurd (omega arith)
get_elem?-blocks zero (suc m) a b zero h = refl
get_elem?-blocks zero (suc m) a b (suc i) h = ground (arith, get_elem?-blocks zero m a b i)
get_elem?-blocks (suc k) m a b zero h = ground arith
get_elem?-blocks (suc k) m a b (suc i) h = ground (arith, get_elem?-blocks k m a b i)

-- With a count of at least one, the parts add up to the amount and there are as many as asked for.
pub distribute-sum :
    (total count : ℕ)
    → 0 < count
    → (sum (distribute_installment_amounts total count) ≡ total)
      × (length (distribute_installment_amounts total count) ≡ count)
distribute-sum total count h =
    let k = count - total % count in
    let m = total % count in
    rw (distribute-blocks total count h) (
      omega (
        arith,
        sum-append (replicate k (total / count)) (replicate m (total / count + 1)),
        sum-replicate k (total / count),
        sum-replicate m (total / count + 1),
        parts_total total count h,
      ),
      omega (
        arith,
        length-append (replicate k (total / count)) (replicate m (total / count + 1)),
        length-replicate k (total / count),
        length-replicate m (total / count + 1),
        mod-lt total h,
      ),
    )

-- Two parts differ by one cent at most, and the larger ones come last: the part at place `i` is the
-- quotient, or one cent more from place `count - total % count` on.
pub distribute-get_elem? :
    (total count i : ℕ)
    → i < count
    → get_elem? (distribute_installment_amounts total count) i
      ≡ some (total / count + (if ltb i (count - total % count) then 0 else 1))
distribute-get_elem? total count i h =
    let k = count - total % count in
    let m = total % count in
    rw (distribute-blocks total count (omega arith)) (
      rw
        (get_elem?-blocks k m (total / count) (total / count + 1) i
          (omega (arith, mod-lt total {m = count})))
        (ground arith))
