-- ===== src/Util/Tests.antt =====
-- Runs on MAC addresses.
use utils_c.Base.{ℕ, ◌≡◌, refl, arith, List, [], ◌∷◌, done}
use utils_c.Util.{mac_hexstr_to_digit, mac_digit_to_hexstr, mac_hexstr_to_lower, scan, hex, print}
use utils_c.Util.Mac.{mac_hexstr_to_digit-mac_digit_to_hexstr}

abbrev mac : List ℕ
mac = 0 ∷ 27 ∷ 68 ∷ 17 ∷ 58 ∷ 183 ∷ []

mac_hexstr_to_digit-mac_digit_to_hexstr_example :
    (text : List ℕ) × (mac_digit_to_hexstr mac ≡ (done, text))
    × (mac_hexstr_to_digit text ≡ (done, mac))
mac_hexstr_to_digit-mac_digit_to_hexstr_example =
    mac_hexstr_to_digit-mac_digit_to_hexstr mac refl
      (omega arith, (omega arith, (omega arith, (omega arith, (omega arith, (omega arith, tt))))))

-- The text "AB-cd.0123 45ff", with other separators and capitals, in the usual form.
lower_run :
    mac_hexstr_to_lower
      (65 ∷ 66 ∷ 45 ∷ 99 ∷ 100 ∷ 46 ∷ 48 ∷ 49 ∷ 50 ∷ 51 ∷ 32 ∷ 52 ∷ 53 ∷ 102 ∷ 102 ∷ [])
    ≡ (
      done,
      97 ∷ 98 ∷ 58 ∷ 99 ∷ 100 ∷ 58 ∷ 48 ∷ 49 ∷ 58 ∷ 50 ∷ 51 ∷ 58 ∷ 52 ∷ 53 ∷ 58 ∷ 102 ∷ 102 ∷ [],
    )
unfolding mac_hexstr_to_lower mac_hexstr_to_digit mac_digit_to_hexstr scan hex print
lower_run = refl
