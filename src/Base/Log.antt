-- ===== src/Base/Log.antt =====
-- A log of requests that grows.
use mathlib.Core.List.{append-nil, append_assoc}
use iv_cloud_gateway.Base.{
  ℕ, suc, ◌+◌, ◌≤◌, ◌≡◌, sym, ◌∙◌, ap, List, [], ◌∷◌, ◌++◌, arith, length, length-append, All,
  All-append,
}

module _ {ℓ} {A : Type ℓ} where
  -- `new` is `old` with at most n more entries, which all satisfy P.
  abbrev pub Adds {κ} : (A → Type κ) → ℕ → List A → List A → Type (ℓ ⊔ κ)
  Adds P n old new = (ext : List A) × (new ≡ old ++ ext) × All P ext × (length ext ≤ n)

  pub Adds-none {κ} : (P : A → Type κ) (n : ℕ) (old new : List A) → new ≡ old → Adds P n old new
  Adds-none P n old new e = ([], e ∙ sym (append-nil old), tt, omega arith)

  pub Adds-one {κ} :
      (P : A → Type κ) (n : ℕ) (old : List A) (x : A) (new : List A)
      → P x
      → Adds P n (old ++ x ∷ []) new
      → Adds P (suc n) old new
  Adds-one P n old x new p (ext, e, h, k) =
      (x ∷ ext, e ∙ append_assoc old (x ∷ []) ext, (p, h), omega arith)

  pub Adds-trans {κ} :
      (P : A → Type κ) (m n : ℕ) (a b c : List A) → Adds P m a b → Adds P n b c → Adds P (m + n) a c
  Adds-trans P m n a b c (xs, e, h, k) (ys, e', h', k') = (
    xs ++ ys,
    e' ∙ (ap (λ l. l ++ ys) e ∙ append_assoc a xs ys),
    All-append P xs ys h h',
    omega (arith, length-append xs ys),
  )

  pub Adds-weaken {κ} :
      (P : A → Type κ) (m n : ℕ) (old new : List A) → m ≤ n → Adds P m old new → Adds P n old new
  Adds-weaken P m n old new le (ext, e, h, k) = (ext, e, h, omega arith)

  All-weaken {κ κ'} :
      (P : A → Type κ) (Q : A → Type κ')
      → ((x : A) → P x → Q x)
      → (xs : List A) → All P xs
      → All Q xs
  All-weaken P Q f [] h = tt
  All-weaken P Q f (x ∷ xs) (p, h) = (f x p, All-weaken P Q f xs h)

  pub Adds-imp {κ κ'} :
      (P : A → Type κ) (Q : A → Type κ') (n : ℕ) (old new : List A)
      → ((x : A) → P x → Q x)
      → Adds P n old new
      → Adds Q n old new
  Adds-imp P Q n old new f (ext, e, h, k) = (ext, e, All-weaken P Q f ext h, k)
