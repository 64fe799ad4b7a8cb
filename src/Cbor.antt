-- ===== src/Cbor.antt =====
-- cbor.rs: the writer and the reader over minicbor, which is a parameter. A writer is the list of the
-- pieces that it has written, a reader a function of the bytes that are left.
pub mod RoundTrip
use rtn_mq.Prelude.{
  arith, inl, inr, ℕ, ◌+◌, ◌^◌, ◌<◌, ◌≤◌, ◌≡◌, Bool, true, false, not, Option, none, some, List, [],
  ◌∷◌, ◌++◌, length, ltb, ◌==◌, if◌then◌else◌, all, leb, is_none,
}
use rtn_mq.Prelude.Bytes.{Bytes, bytes_eq, concat}
use rtn_mq.Error.{Error, Result, ok, err, protocol, message_too_large, fail_if, Result-cases}

abbrev pub u64_mod : ℕ
u64_mod = 2 ^ 64

-- `minicbor::Encoder` and `Decoder`: the bytes of one item; an item and the bytes behind it.
-- `array` and `map` yield `none` inside for an indefinite length. `is_text` is valid UTF-8.
pub record Minicbor : Type 0 where
  pub put_array : ℕ → Bytes
  pub put_u : ℕ → Bytes
  pub put_bytes : Bytes → Bytes
  pub put_text : Bytes → Bytes
  pub put_map : ℕ → Bytes
  pub get_array : Bytes → Option (Option ℕ × Bytes)
  pub get_u : Bytes → Option (ℕ × Bytes)
  pub get_bytes : Bytes → Option (Bytes × Bytes)
  pub get_text : Bytes → Option (Bytes × Bytes)
  pub get_map : Bytes → Option (Option ℕ × Bytes)
  pub is_text : Bytes → Bool

-- What minicbor documents: an item that was encoded is decoded, whatever follows it, a string is
-- written as it stands behind a head of at most nine bytes.
pub record MinicborLaws (m : Minicbor) : Type 0 where
  pub array_put :
      (n : ℕ) (rest : Bytes)
      → n < u64_mod
      → m.get_array (m.put_array n ++ rest) ≡ some (some n, rest)
  pub u_put : (n : ℕ) (rest : Bytes) → n < u64_mod → m.get_u (m.put_u n ++ rest) ≡ some (n, rest)
  pub bytes_put :
      (b rest : Bytes) → length b < u64_mod → m.get_bytes (m.put_bytes b ++ rest) ≡ some (b, rest)
  pub text_put :
      (b rest : Bytes)
      → m.is_text b ≡ true
      → length b < u64_mod
      → m.get_text (m.put_text b ++ rest) ≡ some (b, rest)
  pub map_put :
      (n : ℕ) (rest : Bytes) → n < u64_mod → m.get_map (m.put_map n ++ rest) ≡ some (some n, rest)
  pub bytes_size :
      (b : Bytes) → (length b ≤ length (m.put_bytes b)) × (length (m.put_bytes b) ≤ length b + 9)
  pub text_size :
      (b : Bytes) → (length b ≤ length (m.put_text b)) × (length (m.put_text b) ≤ length b + 9)
  pub head_size :
      (n : ℕ) → (length (m.put_u n) ≤ 9) × (length (m.put_array n) ≤ 9) × (length (m.put_map n) ≤ 9)
  pub u_range : (b : Bytes) (n : ℕ) (rest : Bytes) → m.get_u b ≡ some (n, rest) → n < u64_mod
  pub ascii_is_text : (b : Bytes) → all (λ c. ltb c 128) b ≡ true → m.is_text b ≡ true

-- The pieces that a `Writer` holds, and `finish`.
abbrev pub Writer : Type 0
Writer = List Bytes

unfoldable pub finish : Writer → Bytes
finish w = concat w

abbrev pub Reader {ℓ} : Type ℓ → Type ℓ
Reader A = Bytes → Result (A × Bytes)

abbrev continue {ℓ κ} :
    {A : Type ℓ} {B : Type κ} → Result (A × Bytes) → (A → Reader B) → Result (B × Bytes)
continue (ok (a, rest)) f = f a rest
continue (err e) f = err e

infixl 5 ◌>>=◌ ◌>>◌
abbrev pub ◌>>=◌ {ℓ κ} : {A : Type ℓ} {B : Type κ} → Reader A → (A → Reader B) → Reader B
◌>>=◌ r f b = continue (r b) f

abbrev pub ◌>>◌ {ℓ} : {B : Type ℓ} → Reader (Unit {0}) → Reader B → Reader B
r >> k = r >>= λ _. k

abbrev pub pure {ℓ} : {A : Type ℓ} → A → Reader A
pure a b = ok (a, b)

-- A `?` on a result in the middle of a decoder.
abbrev pub lift {ℓ} : {A : Type ℓ} → Result A → Reader A
lift (ok a) b = ok (a, b)
lift (err e) b = err e

-- A decoder error is `Protocol("invalid CBOR")`.
abbrev pub item {ℓ} : {A : Type ℓ} → Option (A × Bytes) → Result (A × Bytes)
item none = err (protocol "invalid CBOR")
item (some r) = ok r

abbrev pub is_length : ℕ → Option ℕ → Bool
is_length len none = false
is_length len (some n) = n == len

module _ ⦃m : Minicbor⦄ where
  abbrev pub put_array : ℕ → Bytes
  put_array n = m.put_array n

  abbrev pub put_u : ℕ → Bytes
  put_u n = m.put_u n

  abbrev pub put_bytes : Bytes → Bytes
  put_bytes b = m.put_bytes b

  abbrev pub put_text : Bytes → Bytes
  put_text b = m.put_text b

  abbrev pub put_empty_map : Bytes
  put_empty_map = m.put_map 0

  unfoldable pub array : ℕ → Reader (Unit {0})
  array len = do
    n ← λ b. item (m.get_array b)
    lift (fail_if (not (is_length len n)) (protocol "array length"))

  bounded_length : ℕ → Option ℕ → Result ℕ
  bounded_length max none = err (protocol "indefinite array")
  bounded_length max (some n) = if ltb max n then err (protocol "collection limit") else ok n

  unfoldable pub list : ℕ → Reader ℕ
  unfolding bounded_length
  list max = do n ← λ b. item (m.get_array b); lift (bounded_length max n)

  unfoldable pub u : Reader ℕ
  u b = item (m.get_u b)

  unfoldable pub bytes : ℕ → Reader Bytes
  bytes max = do
    b ← λ b. item (m.get_bytes b)
    lift (fail_if (ltb max (length b)) message_too_large)
    pure b

  -- `[u8; N]`
  unfoldable pub fixed : ℕ → Reader Bytes
  unfolding bytes
  fixed size = do
    b ← bytes size
    lift (fail_if (not (length b == size)) (protocol "byte string length"))
    pure b

  unfoldable pub text : ℕ → Reader Bytes
  text max = do
    s ← λ b. item (m.get_text b)
    lift (fail_if (ltb max (length s)) message_too_large)
    pure s

  unfoldable pub empty_map : Reader (Unit {0})
  empty_map = do
    n ← λ b. item (m.get_map b)
    lift (fail_if (not (is_length 0 n)) (protocol "unprotected headers"))

-- `end`: the position is the length of the input when nothing is left.
unfoldable pub end : Reader (Unit {0})
end [] = ok (tt, [])
end (b ∷ rest) = err (protocol "trailing bytes")

unfoldable pub canonical : Bytes → Bytes → Result (Unit {0})
canonical input encoded = fail_if (not (bytes_eq input encoded)) (protocol "noncanonical CBOR")

-- The value that a decoder returns for a whole input.
abbrev pub run_reader {ℓ} : {A : Type ℓ} → Reader A → Bytes → Result A
run_reader r b = elim (r b) [ ok (a, rest) ↦ ok a | err e ↦ err e ]

pub run_reader-eq-ok {ℓ} :
    {A : Type ℓ} (r : Reader A) (b : Bytes) {a : A}
    → run_reader r b ≡ ok a
    → (rest : Bytes) × (r b ≡ ok (a, rest))
run_reader-eq-ok r b h = elim (Result-cases (r b)) [
  | inl ((x, rest), e) ↦ (rest, ground arith)
  | inr (x, e) ↦ absurd (ground arith)
]

pub run_reader-ok {ℓ} :
    {A : Type ℓ} (r : Reader A) (b : Bytes) {a : A} {rest : Bytes}
    → r b ≡ ok (a, rest)
    → run_reader r b ≡ ok a
run_reader-ok r b h = ground arith

-- Inversion of a step of a decoder that succeeded.
pub >>=-eq-ok {ℓ κ} :
    {A : Type ℓ} {B : Type κ} (r : Reader A) (f : A → Reader B) (b : Bytes) {res : B × Bytes}
    → (r >>= f) b ≡ ok res
    → (a : A) × (rest : Bytes) × (r b ≡ ok (a, rest)) × (f a rest ≡ ok res)
>>=-eq-ok r f b h = elim (Result-cases (r b)) [
  | inl ((x, rest), e) ↦ (x, rest, e, (rw e at h))
  | inr (x, e) ↦ absurd (cc (rw e at h))
]
