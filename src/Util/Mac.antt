-- ===== src/Util/Mac.antt =====
-- Text and bytes of a MAC address.
use utils_c.Base.{
  ℕ, suc, ◌+◌, ◌*◌, ◌/◌, ◌%◌, ◌<◌, ◌≡◌, refl, ap, subst, ◌∙◌, arith, true, some, List, [], ◌∷◌,
  ◌++◌, length, done, ◌==◌, All,
}
use utils_c.Util.{
  hex, store, scan, mac_hexstr_to_digit, hex_char, hex_pair, print, mac_digit_to_hexstr,
}

hex-hex_char : (n : ℕ) → n < 16 → hex (hex_char n) ≡ some n
unfolding hex
hex-hex_char n h = ground arith

scan_two :
    (m c d high low : ℕ) (s : List ℕ)
    → hex c ≡ some high
    → hex d ≡ some low
    → scan (suc m) (c ∷ d ∷ s) ≡ store high low (scan m s)
unfolding scan
scan_two m c d high low s e f = rw (scan, e, f)

scan_pair :
    (m b : ℕ) (s : List ℕ)
    → b < 256
    → scan (suc m) (hex_pair b ++ s) ≡ store (b / 16) (b % 16) (scan m s)
scan_pair m b s h =
    scan_two m (hex_char (b / 16)) (hex_char (b % 16)) (b / 16) (b % 16) s
      (hex-hex_char (b / 16) (omega arith)) (hex-hex_char (b % 16) (omega arith))

colon : (m : ℕ) (s : List ℕ) → 0 < length s → scan (suc m) (58 ∷ s) ≡ scan (suc m) s
unfolding scan hex
colon m [] h = elim h [ ]
colon m (c ∷ s) h = refl

print_pos : (b : ℕ) (bs : List ℕ) → 0 < length (print (b ∷ bs))
unfolding print
print_pos b [] = omega arith
print_pos b (c ∷ bs) = omega arith

length-print : (b : ℕ) (bs : List ℕ) → length (print (b ∷ bs)) + 1 ≡ 3 * length (b ∷ bs)
unfolding print
length-print b [] = omega arith
length-print b (c ∷ bs) = omega (arith, length-print c bs)

halves : (b : ℕ) → b / 16 * 16 + b % 16 ≡ b
halves b = omega arith

scan-print : (bs : List ℕ) → All (λ b. b < 256) bs → scan (length bs) (print bs) ≡ (done, bs)
unfolding scan print
scan-print [] h = refl
scan-print (b ∷ []) h = scan_pair 0 b [] h.0 ∙ ap (λ x. (done, x ∷ [])) (halves b)
scan-print (b ∷ c ∷ bs) h =
    scan_pair (suc (length bs)) b (58 ∷ print (c ∷ bs)) h.0
    ∙ ap (store (b / 16) (b % 16))
        (colon (length bs) (print (c ∷ bs)) (print_pos c bs) ∙ scan-print (c ∷ bs) h.1)
    ∙ ap (λ x. (done, x ∷ c ∷ bs)) (halves b)

-- A list of six bytes is printed without an error, and scanning the text gives the bytes back.
pub mac_hexstr_to_digit-mac_digit_to_hexstr :
    (mac : List ℕ)
    → length mac ≡ 6
    → All (λ b. b < 256) mac
    → (text : List ℕ) × (mac_digit_to_hexstr mac ≡ (done, text))
      × (mac_hexstr_to_digit text ≡ (done, mac))
unfolding mac_hexstr_to_digit mac_digit_to_hexstr
mac_hexstr_to_digit-mac_digit_to_hexstr [] n h = absurd (omega (arith, n))
mac_hexstr_to_digit-mac_digit_to_hexstr (b ∷ bs) n h =
    let size : length (print (b ∷ bs)) ≡ 17 = omega (arith, length-print b bs, n) in
    let fits : (length (print (b ∷ bs)) == 17) ≡ true = ground arith in
    (
      print (b ∷ bs),
      rw fits,
      subst (λ m. scan m (print (b ∷ bs)) ≡ (done, b ∷ bs)) n (scan-print (b ∷ bs) h),
    )
