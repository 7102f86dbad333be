-- ===== src/Io/Random/Put.antt =====
-- random/uc_random.c and ipc/uc_ipc_server.c: what bytes written into a buffer leave there.
use mathlib.Core.List.{append_assoc}
use utils_c.Base.{
  ℕ, ◌+◌, ◌≤◌, ◌≡◌, refl, sym, ap, ◌∙◌, arith, List, [], ◌∷◌, ◌++◌, length, take, drop,
  length-append, length-take, length-drop,
}
use utils_c.Io.Random.{put}

pub length-put :
    (block : List ℕ) (i : ℕ) (bs : List ℕ)
    → i + length bs ≤ length block
    → length (put block i bs) ≡ length block
length-put block i bs h = omega (
  arith,
  length-append (take i block) (bs ++ drop (i + length bs) block),
  length-append bs (drop (i + length bs) block),
  length-take i block (omega arith),
  length-drop (i + length bs) block h,
)

take-append_left : (xs ys : List ℕ) → take (length xs) (xs ++ ys) ≡ xs
take-append_left [] ys = refl
take-append_left (x ∷ xs) ys = ap (◌∷◌ x) (take-append_left xs ys)

-- Bytes put behind those that have come have come too.
pub take-put :
    (block part bs : List ℕ)
    → take (length part) block ≡ part
    → take (length (part ++ bs)) (put block (length part) bs) ≡ part ++ bs
take-put block part bs h =
    rw (h, sym (append_assoc part bs (drop (length part + length bs) block)))
      (take-append_left (part ++ bs) (drop (length part + length bs) block))

pub take-whole : (xs : List ℕ) → take (length xs) xs ≡ xs
take-whole [] = refl
take-whole (x ∷ xs) = ap (◌∷◌ x) (take-whole xs)

pub put-all :
    (block part bs : List ℕ)
    → take (length part) block ≡ part
    → length part + length bs ≡ length block
    → put block (length part) bs ≡ part ++ bs
put-all block part bs come full =
    let size : length (put block (length part) bs) ≡ length (part ++ bs) =
      length-put block (length part) bs (omega arith) ∙ (sym full ∙ sym (length-append part bs)) in
    sym (take-whole (put block (length part) bs))
    ∙ (ap (λ (n : ℕ). take n (put block (length part) bs)) size ∙ take-put block part bs come)
