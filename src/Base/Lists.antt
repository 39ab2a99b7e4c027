-- ===== src/Base/Lists.antt =====
-- Lists measured and indexed by native numbers, under the library's names.
use Prim.Native.Nat.{ℕ, zero, suc, ◌+◌, ◌≤◌, ◌<◌}
use mathlib.Core.Path.{◌≡◌, refl, ap, ap₂}
use mathlib.Core.Logic.{◌≢◌, ◌⊎◌, inl, inr}
use mathlib.Core.List.{List, [], ◌∷◌, ◌++◌}
use native.Mathlib.Omega.{arith}

module _ {ℓ} {A : Type ℓ} where
  abbrev pub length : List A → ℕ
  length [] = 0
  length (_ ∷ xs) = suc (length xs)

  abbrev pub get_or : List A → ℕ → A → A
  get_or [] _ d = d
  get_or (x ∷ _) zero _ = x
  get_or (_ ∷ xs) (suc i) d = get_or xs i d

  -- A write out of bounds changes nothing.
  abbrev pub set : List A → ℕ → A → List A
  set [] _ _ = []
  set (_ ∷ xs) zero v = v ∷ xs
  set (x ∷ xs) (suc i) v = x ∷ set xs i v

  abbrev pub take : ℕ → List A → List A
  take zero _ = []
  take (suc n) [] = []
  take (suc n) (x ∷ xs) = x ∷ take n xs

  abbrev pub replicate : ℕ → A → List A
  replicate zero _ = []
  replicate (suc n) a = a ∷ replicate n a

  pub length-append : (xs ys : List A) → length (xs ++ ys) ≡ length xs + length ys
  length-append [] ys = omega arith
  length-append (x ∷ xs) ys = omega (arith, length-append xs ys)

  pub length-set : (xs : List A) (i : ℕ) (v : A) → length (set xs i v) ≡ length xs
  length-set [] i v = refl
  length-set (x ∷ xs) zero v = refl
  length-set (x ∷ xs) (suc i) v = ap suc (length-set xs i v)

  pub length-replicate : (n : ℕ) (a : A) → length (replicate n a) ≡ n
  length-replicate zero a = refl
  length-replicate (suc n) a = ap suc (length-replicate n a)

  pub length-take_of_le : (n : ℕ) (xs : List A) → n ≤ length xs → length (take n xs) ≡ n
  length-take_of_le zero xs h = refl
  length-take_of_le (suc n) [] h = absurd (omega arith)
  length-take_of_le (suc n) (x ∷ xs) h = ap suc (length-take_of_le n xs (omega arith))

  pub take-length : (n : ℕ) (xs : List A) → length xs ≡ n → take n xs ≡ xs
  take-length zero [] h = refl
  take-length zero (x ∷ xs) h = absurd (omega arith)
  take-length (suc n) [] h = refl
  take-length (suc n) (x ∷ xs) h = ap (◌∷◌ x) (take-length n xs (omega arith))

  pub get_or-set_self :
      (xs : List A) (i : ℕ) (v d : A) → i < length xs → get_or (set xs i v) i d ≡ v
  get_or-set_self [] i v d h = absurd (omega arith)
  get_or-set_self (x ∷ xs) zero v d h = refl
  get_or-set_self (x ∷ xs) (suc i) v d h = get_or-set_self xs i v d (omega arith)

  pub get_or-set_ne :
      (xs : List A) (i j : ℕ) (v d : A) → i ≢ j → get_or (set xs i v) j d ≡ get_or xs j d
  get_or-set_ne [] i j v d h = refl
  get_or-set_ne (x ∷ xs) zero zero v d h = absurd (h refl)
  get_or-set_ne (x ∷ xs) zero (suc j) v d h = refl
  get_or-set_ne (x ∷ xs) (suc i) zero v d h = refl
  get_or-set_ne (x ∷ xs) (suc i) (suc j) v d h = get_or-set_ne xs i j v d (λ e. h (ap suc e))

  -- `memcpy (buf + at, src, n)` for the `n` elements of `src`.
  abbrev pub overwrite : List A → ℕ → List A → List A
  overwrite buf at [] = buf
  overwrite buf at (b ∷ bs) = overwrite (set buf at b) (suc at) bs

  -- The `n` elements that a `memcpy` from `buf + at` reads.
  abbrev pub slice : A → List A → ℕ → ℕ → List A
  slice d buf at zero = []
  slice d buf at (suc n) = get_or buf at d ∷ slice d buf (suc at) n

  pub length-overwrite :
      (buf : List A) (at : ℕ) (src : List A) → length (overwrite buf at src) ≡ length buf
  length-overwrite buf at [] = refl
  length-overwrite buf at (b ∷ bs) =
      omega (arith, length-overwrite (set buf at b) (suc at) bs, length-set buf at b)

  pub length-slice : (d : A) (buf : List A) (at n : ℕ) → length (slice d buf at n) ≡ n
  length-slice d buf at zero = refl
  length-slice d buf at (suc n) = ap suc (length-slice d buf (suc at) n)

  get_or-overwrite_before :
      (d : A) (buf : List A) (at : ℕ) (src : List A) (j : ℕ)
      → j < at
      → get_or (overwrite buf at src) j d ≡ get_or buf j d
  get_or-overwrite_before d buf at [] j h = refl
  get_or-overwrite_before d buf at (b ∷ bs) j h =
      rw (get_or-overwrite_before d (set buf at b) (suc at) bs j (omega arith))
        (get_or-set_ne buf at j b d (omega arith))

  get_or-overwrite_after :
      (d : A) (buf : List A) (at : ℕ) (src : List A) (j : ℕ)
      → at + length src ≤ j
      → get_or (overwrite buf at src) j d ≡ get_or buf j d
  get_or-overwrite_after d buf at [] j h = refl
  get_or-overwrite_after d buf at (b ∷ bs) j h =
      rw (get_or-overwrite_after d (set buf at b) (suc at) bs j (omega arith))
        (get_or-set_ne buf at j b d (omega arith))

  -- A block that was written is read back.
  pub slice-overwrite_self :
      (d : A) (buf : List A) (at : ℕ) (src : List A)
      → at + length src ≤ length buf
      → slice d (overwrite buf at src) at (length src) ≡ src
  slice-overwrite_self d buf at [] h = refl
  slice-overwrite_self d buf at (b ∷ bs) h =
      ap₂ ◌∷◌
        (rw (get_or-overwrite_before d (set buf at b) (suc at) bs at (omega arith))
          (get_or-set_self buf at b d (omega arith)))
        (slice-overwrite_self d (set buf at b) (suc at) bs (omega (arith, length-set buf at b)))

  -- A block that ends before the write, or starts behind it, is not touched.
  pub slice-overwrite_apart :
      (d : A) (buf : List A) (at : ℕ) (src : List A) (from n : ℕ)
      → (from + n ≤ at) ⊎ (at + length src ≤ from)
      → slice d (overwrite buf at src) from n ≡ slice d buf from n
  slice-overwrite_apart d buf at src from zero h = refl
  slice-overwrite_apart d buf at src from (suc n) h =
      ap₂ ◌∷◌
        (ground (
          arith,
          get_or-overwrite_before d buf at src from,
          get_or-overwrite_after d buf at src from,
        ))
        (slice-overwrite_apart d buf at src (suc from) n (ground arith))

-- Every element of the list satisfies `P`.
abbrev pub All {ℓ κ} : {A : Type ℓ} → (A → Type κ) → List A → Type κ
All P [] = Unit
All P (x ∷ xs) = P x × All P xs

pub List-cases {ℓ} :
    {A : Type ℓ} (xs : List A) → (xs ≡ []) ⊎ ((x : A) × (ys : List A) × (xs ≡ x ∷ ys))
List-cases [] = inl refl
List-cases (x ∷ xs) = inr (x, xs, refl)
