-- ===== src/Hash/Key/Compare.antt =====
-- What the functions on keys do, in terms of the bytes that are hashed.
use utils_c.Base.{
  ℕ, zero, suc, ◌≤◌, ◌<◌, ◌≡◌, refl, sym, ap, ◌∙◌, inl, inr, arith, List, [], ◌∷◌, ◌++◌, length,
  take, drop, All, bytes_eq, bytes_eq→eq, bytes_eq_self, ==_iff, ◌==◌, Bool-cases, ok, ok_injective,
  length-take, length-drop, length-append, take-append_exact, All-take, All-drop, All-append,
}
use utils_c.Hash.Key.{
  KeyType, char, uchar, int16, uint16, int32, uint32, int64, uint64, pointer, mac, mac_str, ip_str,
  id_char32_str, id_char64_str, mem, other, Key, value_of, member, zero_if, differs, key_compare,
  key_copy, cal_key_len, cal_key_addr,
}

-- The bytes that a table hashes for a key.
unfoldable pub hashed_bytes : KeyType → ℕ → Key → List ℕ
hashed_bytes mem key_len k = take key_len k.mem
hashed_bytes (other n) key_len k = []
hashed_bytes member_type key_len k = take key_len k.bytes

-- A member of the enumeration.
abbrev pub IsMember : KeyType → Type 0
IsMember (other n) = ⊥
IsMember t = Unit

pub member-known : (t : KeyType) (m : ℕ) → IsMember t → (n : ℕ) × (cal_key_len t m ≡ ok n)
unfolding cal_key_len
member-known (other n) m h = absurd h
member-known char m h = (_, refl)
member-known _ m h = (_, refl)

pub known-member : (t : KeyType) (m n : ℕ) → cal_key_len t m ≡ ok n → IsMember t
unfolding cal_key_len
known-member (other k) m n e = cc
known-member char m n e = tt
known-member _ m n e = tt

-- The size of the union, of its bytes, and of the memory behind `mem`.
pub record IsKey (mem_key_len : ℕ) (k : Key) : Type 0 where
  pub size : length k.bytes ≡ 72
  pub octets : All (λ b. b < 256) k.bytes
  pub mem_size : mem_key_len ≤ length k.mem

value_of-injective :
    (xs ys : List ℕ)
    → length xs ≡ length ys
    → All (λ b. b < 256) xs
    → All (λ b. b < 256) ys
    → value_of xs ≡ value_of ys
    → xs ≡ ys
unfolding value_of
value_of-injective [] [] n p q e = refl
value_of-injective [] (y ∷ ys) n p q e = absurd (omega arith)
value_of-injective (x ∷ xs) [] n p q e = absurd (omega arith)
value_of-injective (x ∷ xs) (y ∷ ys) n p q e =
    let head : x ≡ y = omega arith in
    let rest : xs ≡ ys = value_of-injective xs ys (omega arith) p.1 q.1 (omega arith) in cc

differs-bytes_eq :
    (n : ℕ) (a b : List ℕ)
    → n ≤ length a
    → n ≤ length b
    → differs n a b ≡ zero_if (bytes_eq (take n a) (take n b))
unfolding differs
differs-bytes_eq zero a b p q = refl
differs-bytes_eq (suc n) [] b p q = absurd (omega arith)
differs-bytes_eq (suc n) (x ∷ a) [] p q = absurd (omega arith)
differs-bytes_eq (suc n) (x ∷ a) (y ∷ b) p q =
    ground (arith, differs-bytes_eq n a b (omega arith) (omega arith))

module _ {m : ℕ} {a b : Key} (ka : IsKey m a) (kb : IsKey m b) where
  member-bytes_eq :
      (n : ℕ)
      → n ≤ 72
      → zero_if (member n a == member n b) ≡ zero_if (bytes_eq (take n a.bytes) (take n b.bytes))
  unfolding member
  member-bytes_eq n h = elim (Bool-cases (member n a == member n b)) [
    | inl same ↦
        let e =
          value_of-injective (take n a.bytes) (take n b.bytes)
            (length-take n a.bytes (omega (arith, ka.size))
              ∙ sym (length-take n b.bytes (omega (arith, kb.size))))
            (All-take _ n a.bytes ka.octets) (All-take _ n b.bytes kb.octets)
            ((==_iff _ _).0 same) in
        rw (same, e, bytes_eq_self)
    | inr apart ↦ elim (Bool-cases (bytes_eq (take n a.bytes) (take n b.bytes))) [
      | inl same ↦
          let e : member n a ≡ member n b = ap value_of (bytes_eq→eq _ _ same) in
          cc ((==_iff _ _).1 e)
      | inr differ ↦ rw (apart, differ)
    ]
  ]

abbrev Compares : KeyType → ℕ → Key → Key → Type 0
Compares t n a b =
    key_compare t n a b ≡ ok (zero_if (bytes_eq (hashed_bytes t n a) (hashed_bytes t n b)))

module _ {m : ℕ} {a b : Key} (ka : IsKey m a) (kb : IsKey m b) where
  scalar_Compares :
      (n : ℕ)
      → n ≤ 72
      → ok (zero_if (member n a == member n b))
        ≡ ok (zero_if (bytes_eq (take n a.bytes) (take n b.bytes)))
  scalar_Compares n h = ap ok (member-bytes_eq ka kb n h)

  array_Compares :
      (n : ℕ)
      → n ≤ 72
      → ok (differs n a.bytes b.bytes) ≡ ok (zero_if (bytes_eq (take n a.bytes) (take n b.bytes)))
  array_Compares n h =
      ap ok (differs-bytes_eq n a.bytes b.bytes (omega (arith, ka.size)) (omega (arith, kb.size)))

  -- Two keys of a table compare as equal exactly when the bytes that are hashed for them are
  -- equal, for every key type.
  pub key_compare-bytes_eq : (t : KeyType) (n : ℕ) → cal_key_len t m ≡ ok n → Compares t n a b
  unfolding key_compare cal_key_len hashed_bytes
  key_compare-bytes_eq char n e = rw (← ok_injective e) (scalar_Compares 1 (omega arith))
  key_compare-bytes_eq uchar n e = rw (← ok_injective e) (scalar_Compares 1 (omega arith))
  key_compare-bytes_eq int16 n e = rw (← ok_injective e) (scalar_Compares 2 (omega arith))
  key_compare-bytes_eq uint16 n e = rw (← ok_injective e) (scalar_Compares 2 (omega arith))
  key_compare-bytes_eq int32 n e = rw (← ok_injective e) (scalar_Compares 4 (omega arith))
  key_compare-bytes_eq uint32 n e = rw (← ok_injective e) (scalar_Compares 4 (omega arith))
  key_compare-bytes_eq int64 n e = rw (← ok_injective e) (scalar_Compares 8 (omega arith))
  key_compare-bytes_eq uint64 n e = rw (← ok_injective e) (scalar_Compares 8 (omega arith))
  key_compare-bytes_eq pointer n e = rw (← ok_injective e) (scalar_Compares 8 (omega arith))
  key_compare-bytes_eq mac n e = rw (← ok_injective e) (array_Compares 6 (omega arith))
  key_compare-bytes_eq mac_str n e = rw (← ok_injective e) (array_Compares 18 (omega arith))
  key_compare-bytes_eq ip_str n e = rw (← ok_injective e) (array_Compares 16 (omega arith))
  key_compare-bytes_eq id_char32_str n e = rw (← ok_injective e)
  key_compare-bytes_eq id_char64_str n e = rw (← ok_injective e)
  key_compare-bytes_eq mem n e = refl
  key_compare-bytes_eq (other k) n e = absurd (cc)

-- The address that is hashed holds the bytes on which keys are compared.
pub cal_key_addr-hashed_bytes :
    (t : KeyType) (m n : ℕ) (k : Key)
    → cal_key_len t m ≡ ok n
    → (bs : List ℕ) × (cal_key_addr t k ≡ ok bs) × (take n bs ≡ hashed_bytes t n k)
unfolding cal_key_len cal_key_addr hashed_bytes
cal_key_addr-hashed_bytes mem m n k e = (k.mem, refl, refl)
cal_key_addr-hashed_bytes (other j) m n k e = absurd (cc)
cal_key_addr-hashed_bytes member_type m n k e = (k.bytes, refl, refl)

module _ {m : ℕ} {a b : Key} (ka : IsKey m a) (kb : IsKey m b) where
  abbrev Copies : KeyType → ℕ → Type 0
  Copies t n =
      (k : Key) × (key_copy t n a b ≡ ok k) × IsKey m k × (hashed_bytes t n k ≡ hashed_bytes t n b)

  bytes_overwrite :
      (n : ℕ)
      → n ≤ 72
      → IsKey m (record a { bytes = take n b.bytes ++ drop n a.bytes })
        × (take n (take n b.bytes ++ drop n a.bytes) ≡ take n b.bytes)
  bytes_overwrite n h =
      let la = ka.size in
      let lb = kb.size in
      (
        record {
          size = omega (
            arith,
            length-append (take n b.bytes) (drop n a.bytes),
            length-take n b.bytes (omega arith),
            length-drop n a.bytes (omega arith),
          );
          octets =
              All-append _ (take n b.bytes) (drop n a.bytes) (All-take _ n b.bytes kb.octets)
                (All-drop _ n a.bytes ka.octets);
          mem_size = ka.mem_size;
        },
        take-append_exact n b.bytes _ (omega arith),
      )

  member_Copies :
      (n : ℕ)
      → n ≤ 72
      → (k : Key) × (ok (record a { bytes = take n b.bytes ++ drop n a.bytes }) ≡ ok k)
        × IsKey m k
        × (take n k.bytes ≡ take n b.bytes)
  member_Copies n h = let r = bytes_overwrite n h in (_, refl, r.0, r.1)

  -- Copying a key into a new node keeps the bytes that are hashed, whatever the node held before.
  pub key_copy-hashed_bytes : (t : KeyType) (n : ℕ) → cal_key_len t m ≡ ok n → Copies t n
  unfolding key_copy cal_key_len hashed_bytes
  key_copy-hashed_bytes char n e = rw (← ok_injective e) (member_Copies 1 (omega arith))
  key_copy-hashed_bytes uchar n e = rw (← ok_injective e) (member_Copies 1 (omega arith))
  key_copy-hashed_bytes int16 n e = rw (← ok_injective e) (member_Copies 2 (omega arith))
  key_copy-hashed_bytes uint16 n e = rw (← ok_injective e) (member_Copies 2 (omega arith))
  key_copy-hashed_bytes int32 n e = rw (← ok_injective e) (member_Copies 4 (omega arith))
  key_copy-hashed_bytes uint32 n e = rw (← ok_injective e) (member_Copies 4 (omega arith))
  key_copy-hashed_bytes int64 n e = rw (← ok_injective e) (member_Copies 8 (omega arith))
  key_copy-hashed_bytes uint64 n e = rw (← ok_injective e) (member_Copies 8 (omega arith))
  key_copy-hashed_bytes pointer n e = rw (← ok_injective e) (member_Copies 8 (omega arith))
  key_copy-hashed_bytes mac n e = rw (← ok_injective e) (member_Copies 6 (omega arith))
  key_copy-hashed_bytes mac_str n e = rw (← ok_injective e) (member_Copies 18 (omega arith))
  key_copy-hashed_bytes ip_str n e = rw (← ok_injective e) (member_Copies 16 (omega arith))
  key_copy-hashed_bytes id_char32_str n e = rw (← ok_injective e) (member_Copies 33 (omega arith))
  key_copy-hashed_bytes id_char64_str n e = rw (← ok_injective e) (member_Copies 65 (omega arith))
  key_copy-hashed_bytes mem n e =
      let len : m ≡ n = ok_injective e in
      let la = ka.mem_size in
      let lb = kb.mem_size in
      (
        record a { mem = take n b.mem ++ drop n a.mem },
        refl,
        record {
          size = ka.size;
          octets = ka.octets;
          mem_size = omega (
            arith,
            length-append (take n b.mem) (drop n a.mem),
            length-take n b.mem (omega arith),
            length-drop n a.mem (omega arith),
          );
        },
        take-append_exact n b.mem _ (omega arith),
      )
  key_copy-hashed_bytes (other k) n e = absurd (cc)
