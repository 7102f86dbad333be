-- ===== src/Hash/Key.antt =====
-- hash/uc_hash.c and include/uc_hash.h: the key types, the key union, and the functions on keys.
pub mod Compare
use utils_c.Base.{
  ℕ, zero, suc, ◌+◌, ◌*◌, ◌==◌, if◌then◌else◌, Bool, bytes_eq, Run, ok, exit, List, [], ◌∷◌, ◌++◌,
  take, drop,
}

-- `other n` is any value of the enumeration's type that names no member.
pub data KeyType : Type 0 where
  char uchar int16 uint16 int32 uint32 int64 uint64 pointer : KeyType
  mac mac_str ip_str id_char32_str id_char64_str mem : KeyType
  other : ℕ → KeyType

-- The bytes of the union, and the memory that its member `mem` points to.
pub record Key : Type 0 where
  pub bytes : List ℕ
  pub mem : List ℕ

-- An integer or a pointer of so many bytes, little-endian.
unfoldable pub value_of : List ℕ → ℕ
value_of [] = 0
value_of (b ∷ bs) = b + 256 * value_of bs

pub member : ℕ → Key → ℕ
unfolding value_of
member width k = value_of (take width k.bytes)

-- `equal ? 0 : 1`
abbrev pub zero_if : Bool → ℕ
zero_if equal = if equal then 0 else 1

abbrev scalar_compare : ℕ → Key → Key → Run ℕ
scalar_compare width a b = ok (zero_if (member width a == member width b))

-- `for (i = 0; i < n; ++i) if (a[i] != b[i]) return 1; return 0;`
pub differs : ℕ → List ℕ → List ℕ → ℕ
differs zero a b = 0
differs (suc n) [] b = 1
differs (suc n) (x ∷ a) [] = 1
differs (suc n) (x ∷ a) (y ∷ b) = if x == y then differs n a b else 1

-- Of the C library's `memcmp` the source uses only whether the result is 0.
abbrev pub memcmp : List ℕ → List ℕ → ℕ → ℕ
memcmp a b n = zero_if (bytes_eq (take n a) (take n b))

-- The sizes of the arrays in the union.
abbrev pub mac_len : ℕ
mac_len = 6

abbrev pub mac_str_len : ℕ
mac_str_len = 18

abbrev pub ip_str_len : ℕ
ip_str_len = 16

abbrev pub id_char32_len : ℕ
id_char32_len = 33

abbrev pub id_char64_len : ℕ
id_char64_len = 65

pub key_compare : KeyType → ℕ → Key → Key → Run ℕ
unfolding member differs
key_compare char key_len a b = scalar_compare 1 a b
key_compare uchar key_len a b = scalar_compare 1 a b
key_compare int16 key_len a b = scalar_compare 2 a b
key_compare uint16 key_len a b = scalar_compare 2 a b
key_compare int32 key_len a b = scalar_compare 4 a b
key_compare uint32 key_len a b = scalar_compare 4 a b
key_compare int64 key_len a b = scalar_compare 8 a b
key_compare uint64 key_len a b = scalar_compare 8 a b
key_compare pointer key_len a b = scalar_compare 8 a b
key_compare mac key_len a b = ok (differs mac_len a.bytes b.bytes)
key_compare mac_str key_len a b = ok (differs mac_str_len a.bytes b.bytes)
key_compare ip_str key_len a b = ok (differs ip_str_len a.bytes b.bytes)
key_compare id_char32_str key_len a b = ok (memcmp a.bytes b.bytes id_char32_len)
key_compare id_char64_str key_len a b = ok (memcmp a.bytes b.bytes id_char64_len)
key_compare mem key_len a b = ok (memcmp a.mem b.mem key_len)
key_compare (other n) key_len a b = exit 0x70e05102

-- An assignment to a member, the copying loops and `memcpy` write the first `n` bytes.
abbrev overwrite : ℕ → List ℕ → List ℕ → List ℕ
overwrite n a b = take n b ++ drop n a

abbrev member_copy : ℕ → Key → Key → Run Key
member_copy n a b = ok (record a { bytes = overwrite n a.bytes b.bytes })

-- The new contents of `*key_a`.
pub key_copy : KeyType → ℕ → Key → Key → Run Key
key_copy char key_len a b = member_copy 1 a b
key_copy uchar key_len a b = member_copy 1 a b
key_copy int16 key_len a b = member_copy 2 a b
key_copy uint16 key_len a b = member_copy 2 a b
key_copy int32 key_len a b = member_copy 4 a b
key_copy uint32 key_len a b = member_copy 4 a b
key_copy int64 key_len a b = member_copy 8 a b
key_copy uint64 key_len a b = member_copy 8 a b
key_copy pointer key_len a b = member_copy 8 a b
key_copy mac key_len a b = member_copy mac_len a b
key_copy mac_str key_len a b = member_copy mac_str_len a b
key_copy ip_str key_len a b = member_copy ip_str_len a b
key_copy id_char32_str key_len a b = member_copy id_char32_len a b
key_copy id_char64_str key_len a b = member_copy id_char64_len a b
key_copy mem key_len a b = ok (record a { mem = overwrite key_len a.mem b.mem })
key_copy (other n) key_len a b = exit 0x70e05102

-- `uc_cal_key_len`, at the two fields of the table that it reads.
unfoldable pub cal_key_len : KeyType → ℕ → Run ℕ
cal_key_len char mem_key_len = ok 1
cal_key_len uchar mem_key_len = ok 1
cal_key_len int16 mem_key_len = ok 2
cal_key_len uint16 mem_key_len = ok 2
cal_key_len int32 mem_key_len = ok 4
cal_key_len uint32 mem_key_len = ok 4
cal_key_len int64 mem_key_len = ok 8
cal_key_len uint64 mem_key_len = ok 8
cal_key_len pointer mem_key_len = ok 8
cal_key_len mac mem_key_len = ok mac_len
cal_key_len mac_str mem_key_len = ok mac_str_len
cal_key_len ip_str mem_key_len = ok ip_str_len
cal_key_len id_char32_str mem_key_len = ok id_char32_len
cal_key_len id_char64_str mem_key_len = ok id_char64_len
cal_key_len mem mem_key_len = ok mem_key_len
cal_key_len (other n) mem_key_len = exit 0x70e05102

-- The bytes from the address on that `uc_cal_key_addr` returns.
pub cal_key_addr : KeyType → Key → Run (List ℕ)
cal_key_addr mem k = ok k.mem
cal_key_addr (other n) k = exit 0x11c9cb57
cal_key_addr member_type k = ok k.bytes
