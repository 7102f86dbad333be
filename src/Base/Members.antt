-- ===== src/Base/Members.antt =====
-- Membership and lists without repetition, on lists of numbers.
use Prim.Native.Nat.{ℕ}
use mathlib.Core.Path.{◌≡◌, refl, sym, ap₂, ◌∙◌}
use mathlib.Core.Logic.{◌≢◌, ◌⊎◌, inl, inr}
use mathlib.Core.List.{List, [], ◌∷◌, ◌++◌, map}
use utils_c.Base.Tests.{◌==◌, ==_iff, if◌then◌else◌, Bool-cases}

abbrev pub In : ℕ → List ℕ → Type 0
In i [] = ⊥
In i (x ∷ xs) = (i ≡ x) ⊎ In i xs

abbrev pub NoRepeat : List ℕ → Type 0
NoRepeat [] = Unit
NoRepeat (x ∷ xs) = (¬ In x xs) × NoRepeat xs

abbrev pub remove : ℕ → List ℕ → List ℕ
remove i [] = []
remove i (x ∷ xs) = let rest = remove i xs in if i == x then rest else x ∷ rest

pub In-append : (i : ℕ) (xs ys : List ℕ) → In i (xs ++ ys) → In i xs ⊎ In i ys
In-append i [] ys m = inr m
In-append i (x ∷ xs) ys (inl e) = inl (inl e)
In-append i (x ∷ xs) ys (inr m) = elim (In-append i xs ys m) [ inl a ↦ inl (inr a) | inr b ↦ inr b ]

pub In-append_left : (i : ℕ) (xs ys : List ℕ) → In i xs → In i (xs ++ ys)
In-append_left i [] ys m = elim m [ ]
In-append_left i (x ∷ xs) ys (inl e) = inl e
In-append_left i (x ∷ xs) ys (inr m) = inr (In-append_left i xs ys m)

pub In-append_right : (i : ℕ) (xs ys : List ℕ) → In i ys → In i (xs ++ ys)
In-append_right i [] ys m = m
In-append_right i (x ∷ xs) ys m = inr (In-append_right i xs ys m)

-- A member of a list from which `i` was taken is another one, and was in the list.
pub In-remove : (i j : ℕ) (xs : List ℕ) → In j (remove i xs) → (j ≢ i) × In j xs
In-remove i j [] m = elim m [ ]
In-remove i j (x ∷ xs) m = elim (Bool-cases (i == x)) [
  | inl e ↦ let r = In-remove i j xs (rw e at m) in (r.0, inr r.1)
  | inr ne ↦
      elim (rw ne at m) as (λ (z : (j ≡ x) ⊎ In j (remove i xs)). (j ≢ i) × ((j ≡ x) ⊎ In j xs)) [
        | inl e ↦ ((λ f. cc ((==_iff i x).1 (sym f ∙ e))), inl e)
        | inr r ↦ let q = In-remove i j xs r in (q.0, inr q.1)
      ]
]

pub In-remove_other : (i j : ℕ) (xs : List ℕ) → j ≢ i → In j xs → In j (remove i xs)
In-remove_other i j [] ne m = elim m [ ]
In-remove_other i j (x ∷ xs) ne (inl e) = elim (Bool-cases (i == x)) [
  | inl f ↦ absurd (ne (e ∙ sym ((==_iff i x).0 f)))
  | inr f ↦ rw f (inl e)
]
In-remove_other i j (x ∷ xs) ne (inr m) =
    let r = In-remove_other i j xs ne m in
    elim (Bool-cases (i == x)) [ inl f ↦ rw f r | inr f ↦ rw f (inr r) ]

pub remove-NoRepeat : (i : ℕ) (xs : List ℕ) → NoRepeat xs → NoRepeat (remove i xs)
remove-NoRepeat i [] h = tt
remove-NoRepeat i (x ∷ xs) h =
    let r = remove-NoRepeat i xs h.1 in
    elim (Bool-cases (i == x)) [
      | inl f ↦ rw f r
      | inr f ↦ rw f ((λ m. h.0 (In-remove i x xs m).1), r)
    ]

pub append-NoRepeat : (i : ℕ) (xs : List ℕ) → NoRepeat xs → ¬ In i xs → NoRepeat (xs ++ i ∷ [])
append-NoRepeat i [] h n = ((λ m. m), tt)
append-NoRepeat i (x ∷ xs) h n = (
  (λ m. elim (In-append x xs (i ∷ []) m) [
    | inl a ↦ h.0 a
    | inr b ↦ elim b [ inl e ↦ n (inl (sym e)) | inr z ↦ z ]
  ]),
  append-NoRepeat i xs h.1 (λ m. n (inr m)),
)

pub empty_of_none : (xs : List ℕ) → ((i : ℕ) → ¬ In i xs) → xs ≡ []
empty_of_none [] h = refl
empty_of_none (x ∷ xs) h = absurd (h x (inl refl))

-- Two functions that agree on a list.
pub map_on {ℓ} :
    {A : Type ℓ} {f g : ℕ → A} (xs : List ℕ) → ((i : ℕ) → In i xs → f i ≡ g i) → map f xs ≡ map g xs
map_on [] h = refl
map_on (x ∷ xs) h = ap₂ ◌∷◌ (h x (inl refl)) (map_on xs (λ i m. h i (inr m)))

pub In-cases : (i : ℕ) (xs : List ℕ) → In i xs ⊎ (¬ In i xs)
In-cases i [] = inr (λ m. m)
In-cases i (x ∷ xs) = elim (Bool-cases (i == x)) [
  | inl e ↦ inl (inl ((==_iff i x).0 e))
  | inr ne ↦ elim (In-cases i xs) [
    | inl m ↦ inl (inr m)
    | inr no_m ↦ inr (λ m. elim m [ inl e ↦ cc ((==_iff i x).1 e) | inr n ↦ no_m n ])
  ]
]
