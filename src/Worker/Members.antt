-- ===== src/Worker/Members.antt =====
-- Membership, distinctness and removal in a list of addresses.
use open_hsm.Base.{
  ◌≡◌, ◌≢◌, refl, Bool, true, false, ◌||◌, List, [], ◌∷◌, ◌++◌, arith, ◌==◌, if◌then◌else◌, length,
  suc, Ptr,
}

abbrev pub has : Ptr → List Ptr → Bool
has a [] = false
has a (x ∷ xs) = (a == x) || has a xs

abbrev pub Distinct : List Ptr → Type 0
Distinct [] = Unit
Distinct (x ∷ xs) = (has x xs ≡ false) × Distinct xs

-- The list without the first `a`.
abbrev pub erase : Ptr → List Ptr → List Ptr
erase a [] = []
erase a (x ∷ xs) = if a == x then xs else x ∷ erase a xs

pub has-append : (a : Ptr) (xs ys : List Ptr) → has a (xs ++ ys) ≡ (has a xs || has a ys)
has-append a [] ys = refl
has-append a (x ∷ xs) ys = ground (arith, has-append a xs ys)

pub Distinct-snoc :
    (xs : List Ptr) (a : Ptr) → Distinct xs → has a xs ≡ false → Distinct (xs ++ a ∷ [])
Distinct-snoc [] a d h = ground arith
Distinct-snoc (x ∷ xs) a d h = ground (arith, has-append x xs (a ∷ []), Distinct-snoc xs a d.1)

pub has-erase_of_ne : (a b : Ptr) (xs : List Ptr) → a ≢ b → has a (erase b xs) ≡ has a xs
has-erase_of_ne a b [] ne = refl
has-erase_of_ne a b (x ∷ xs) ne = ground (arith, has-erase_of_ne a b xs ne)

pub not-has-erase : (a b : Ptr) (xs : List Ptr) → has a xs ≡ false → has a (erase b xs) ≡ false
not-has-erase a b [] h = refl
not-has-erase a b (x ∷ xs) h = ground (arith, not-has-erase a b xs)

pub not-has-erase_self : (a : Ptr) (xs : List Ptr) → Distinct xs → has a (erase a xs) ≡ false
not-has-erase_self a [] d = refl
not-has-erase_self a (x ∷ xs) d = ground (arith, not-has-erase_self a xs d.1)

pub Distinct-erase : (a : Ptr) (xs : List Ptr) → Distinct xs → Distinct (erase a xs)
Distinct-erase a [] d = tt
Distinct-erase a (x ∷ xs) d = ground (arith, Distinct-erase a xs d.1, not-has-erase x a xs)

pub length-erase :
    (a : Ptr) (xs : List Ptr) → has a xs ≡ true → suc (length (erase a xs)) ≡ length xs
length-erase a [] h = ground arith
length-erase a (x ∷ xs) h = ground (arith, length-erase a xs)
