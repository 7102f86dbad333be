-- ===== src/Util.antt =====
-- util/uc_util.c: MAC addresses as text and as six bytes.
pub mod Mac
mod Tests
use utils_c.Base.{
  ℕ, zero, suc, ◌+◌, ◌-◌, ◌*◌, ◌/◌, ◌%◌, ltb, leb, if◌then◌else◌, Bool, true, false, Option, none,
  some, List, [], ◌∷◌, ◌++◌, length, Status, done, failed, ◌==◌,
}

-- Whether a character stands between two others.
abbrev pub between : ℕ → ℕ → ℕ → Bool
between low high c = if leb low c then leb c high else false

-- The value of 'A' to 'F', 'a' to 'f' and '0' to '9'
pub hex : ℕ → Option ℕ
hex c =
    if between 65 70 c
    then some (c - 65 + 10)
    else if between 97 102 c
    then some (c - 97 + 10)
    else if between 48 57 c
    then some (c - 48)
    else none

-- One byte stored: `val` has its low four bits zero when the second digit is put in.
abbrev pub store : ℕ → ℕ → Status × List ℕ → Status × List ℕ
store high low (s, written) = (s, (high * 16 + low) ∷ written)

-- The loop, with so many bytes still to store, on a string without its end: the status, and the
-- bytes that are stored.
pub scan : ℕ → List ℕ → Status × List ℕ
scan zero s = (done, [])
scan (suc m) [] = (failed 1, [])
scan (suc m) (c ∷ []) = (failed 1, [])
scan (suc m) (c ∷ d ∷ s) = elim (hex c) [
  | none ↦ scan (suc m) (d ∷ s)
  | some high ↦ elim (hex d) [ none ↦ (failed 1, []) | some low ↦ store high low (scan m s) ]
]

pub mac_hexstr_to_digit : List ℕ → Status × List ℕ
unfolding scan
mac_hexstr_to_digit s = scan 6 s

-- `%x` of a number below 16, and `%02x` of a byte
abbrev pub hex_char : ℕ → ℕ
hex_char n = if ltb n 10 then 48 + n else 87 + n

abbrev pub hex_pair : ℕ → List ℕ
hex_pair n = hex_char (n / 16) ∷ hex_char (n % 16) ∷ []

-- The bytes, with ':' between them
pub print : List ℕ → List ℕ
print [] = []
print (b ∷ []) = hex_pair b
print (b ∷ c ∷ bs) = hex_pair b ++ (58 ∷ print (c ∷ bs))

pub mac_digit_to_hexstr : List ℕ → Status × List ℕ
unfolding print
mac_digit_to_hexstr mac = ((if length (print mac) == 17 then done else failed 1), print mac)

-- On a failure the text is empty.
pub mac_hexstr_to_lower : List ℕ → Status × List ℕ
mac_hexstr_to_lower s =
    let (status, mac) = mac_hexstr_to_digit s in
    elim status [ done ↦ mac_digit_to_hexstr mac | failed code ↦ (failed code, []) ]
