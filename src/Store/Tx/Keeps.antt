-- ===== src/Store/Tx/Keeps.antt =====
-- A relation between the tables before and after a transaction, from its steps.
use pontoqap.Base.{arith, inl, inr, ◌≡◌}
use pontoqap.Store.Tx.{Tx, Result-cases, ok, ◌>>=◌}

-- Whenever the transaction succeeds, its tables are related to those before it.
abbrev pub Keeps {ℓ κ μ} : {S : Type ℓ} {A : Type κ} → (S → S → Type μ) → Tx S A → Type (ℓ ⊔ κ ⊔ μ)
Keeps {S = S} {A = A} R m = (s : S) (a : A) (s' : S) → m s ≡ ok (a, s') → R s s'

module _ {ℓ κ μ ν} {S : Type ℓ} (R : S → S → Type ν)
    (trans : (a b c : S) → R a b → R b c → R a c) where
  pub Keeps-bind :
      {A : Type κ} {B : Type μ} (m : Tx S A) (k : A → Tx S B)
      → Keeps R m
      → ((a : A) → Keeps R (k a))
      → Keeps R (m >>= k)
  Keeps-bind m k hm hk s b s' e = elim (Result-cases (m s)) [
    | inl (er, h) ↦ ground arith
    | inr ((a, s1), h) ↦
        let rest : k a s1 ≡ ok (b, s') = ground arith in
        trans s s1 s' (hm s a s1 h) (hk a s1 b s' rest)
  ]
