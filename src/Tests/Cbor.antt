-- ===== src/Tests/Cbor.antt =====
-- minicbor as concrete functions: RFC 8949 heads in their shortest form, ASCII text.
use rtn_mq.Prelude.{
  ℕ, ◌+◌, ◌*◌, ◌/◌, ◌%◌, ◌<◌, ◌≤◌, ◌≡◌, refl, ap, Bool, true, Option, none, some, [], ◌∷◌, ◌++◌,
  length, length-append, take, drop, take-append, drop-append, all, ltb, leb, ◌==◌, if◌then◌else◌,
  arith,
}
use rtn_mq.Prelude.Bytes.{Bytes}
use rtn_mq.Cbor.{Minicbor, MinicborLaws, u64_mod}

unfoldable pub byte : ℕ → ℕ
byte n = n % 256

-- The head of an item: the major type, and the argument in 0, 1, 2, 4 or 8 bytes.
unfoldable pub put_head : ℕ → ℕ → Bytes
unfolding byte
put_head major n =
    if ltb n 24
    then (major * 32 + n) ∷ []
    else if ltb n 256
    then (major * 32 + 24) ∷ n ∷ []
    else if ltb n 65536
    then (major * 32 + 25) ∷ byte (n / 256) ∷ byte n ∷ []
    else if ltb n 4294967296
    then (major * 32 + 26) ∷ byte (n / 16777216) ∷ byte (n / 65536) ∷ byte (n / 256) ∷ byte n ∷ []
    else (major * 32 + 27)
      ∷ byte (n / 72057594037927936)
      ∷ byte (n / 281474976710656)
      ∷ byte (n / 1099511627776)
      ∷ byte (n / 4294967296)
      ∷ byte (n / 16777216)
      ∷ byte (n / 65536)
      ∷ byte (n / 256)
      ∷ byte n
      ∷ []

-- The argument, by the low bits of the first byte.
unfoldable pub get_argument : ℕ → Bytes → Option (Option ℕ × Bytes)
unfolding byte
get_argument info rest =
    if ltb info 24
    then some (some info, rest)
    else if info == 24
    then one rest
    else if info == 25
    then two rest
    else if info == 26
    then four rest
    else if info == 27
    then eight rest
    else if info == 31
    then some (none, rest)
    else none
  where
    one : Bytes → Option (Option ℕ × Bytes)
    one (a ∷ rest) = some (some (byte a), rest)
    one _ = none

    two : Bytes → Option (Option ℕ × Bytes)
    two (a ∷ b ∷ rest) = some (some (byte a * 256 + byte b), rest)
    two _ = none

    four : Bytes → Option (Option ℕ × Bytes)
    four (a ∷ b ∷ c ∷ d ∷ rest) =
        some (some (byte a * 16777216 + byte b * 65536 + byte c * 256 + byte d), rest)
    four _ = none

    eight : Bytes → Option (Option ℕ × Bytes)
    eight (a ∷ b ∷ c ∷ d ∷ e ∷ f ∷ g ∷ h ∷ rest) = some (
      some (
          byte a * 72057594037927936
          + byte b * 281474976710656
          + byte c * 1099511627776
          + byte d * 4294967296
          + byte e * 16777216
          + byte f * 65536
          + byte g * 256
          + byte h),
      rest,
    )
    eight _ = none

unfoldable pub get_head : ℕ → Bytes → Option (Option ℕ × Bytes)
unfolding get_argument
get_head major [] = none
get_head major (x ∷ rest) = if x / 32 == major then get_argument (x % 32) rest else none

get_head-put_head :
    (major n : ℕ) (rest : Bytes)
    → major < 8
    → n < u64_mod
    → get_head major (put_head major n ++ rest) ≡ some (some n, rest)
unfolding get_head put_head
get_head-put_head major n rest h k = ground arith

put_head_size : (major n : ℕ) → length (put_head major n) ≤ 9
unfolding put_head
put_head_size major n = ground arith

-- A string: its head, then its bytes.
unfoldable pub put_string : ℕ → Bytes → Bytes
put_string major b = put_head major (length b) ++ b

unfoldable pub get_string : ℕ → Bytes → Option (Bytes × Bytes)
get_string major b = elim (get_head major b) [
  | none ↦ none
  | some (none, rest) ↦ none
  | some (some n, rest) ↦ if leb n (length rest) then some (take n rest, drop n rest) else none
]

append_assoc : (xs ys zs : Bytes) → (xs ++ ys) ++ zs ≡ xs ++ (ys ++ zs)
append_assoc [] ys zs = refl
append_assoc (x ∷ xs) ys zs = ap (◌∷◌ x) (append_assoc xs ys zs)

get_string-put_string :
    (major : ℕ) (b rest : Bytes)
    → major < 8
    → length b < u64_mod
    → get_string major (put_string major b ++ rest) ≡ some (b, rest)
unfolding get_string put_string
get_string-put_string major b rest h k =
    let room : leb (length b) (length (b ++ rest)) ≡ true = ground (arith, length-append b rest) in
    rw
      (
        append_assoc (put_head major (length b)) b rest,
        get_string,
        get_head-put_head major (length b) (b ++ rest) h k,
        room,
        take-append b rest,
        drop-append b rest,
      )
      refl

put_string_size :
    (major : ℕ) (b : Bytes)
    → (length b ≤ length (put_string major b)) × (length (put_string major b) ≤ length b + 9)
unfolding put_string
put_string_size major b =
    omega (arith, length-append (put_head major (length b)) b, put_head_size major (length b))

unfoldable pub is_ascii : Bytes → Bool
is_ascii b = all (λ c. ltb c 128) b

unfoldable pub get_u : Bytes → Option (ℕ × Bytes)
get_u b = elim (get_head 0 b) [
  | none ↦ none
  | some (none, rest) ↦ none
  | some (some n, rest) ↦ if ltb n u64_mod then some (n, rest) else none
]

unfoldable pub get_text : Bytes → Option (Bytes × Bytes)
get_text b = elim (get_string 3 b) [
  | none ↦ none
  | some (s, rest) ↦ if is_ascii s then some (s, rest) else none
]

instance unfoldable pub minicbor : Minicbor
minicbor = record {
  put_array = put_head 4;
  put_u = put_head 0;
  put_bytes = put_string 2;
  put_text = put_string 3;
  put_map = put_head 5;
  get_array = get_head 4;
  get_u = get_u;
  get_bytes = get_string 2;
  get_text = get_text;
  get_map = get_head 5;
  is_text = is_ascii;
}

pub minicbor_laws : MinicborLaws minicbor
unfolding minicbor get_u get_text is_ascii
minicbor_laws = record {
  array_put = λ n rest h. get_head-put_head 4 n rest (omega arith) h;
  u_put = λ n rest h. ground (arith, get_head-put_head 0 n rest);
  bytes_put = λ b rest h. get_string-put_string 2 b rest (omega arith) h;
  text_put = λ b rest t h. ground (arith, get_string-put_string 3 b rest);
  map_put = λ n rest h. get_head-put_head 5 n rest (omega arith) h;
  bytes_size = put_string_size 2;
  text_size = put_string_size 3;
  head_size = λ n. (put_head_size 0 n, put_head_size 4 n, put_head_size 5 n);
  u_range = λ b n rest h. ground (arith, h);
  ascii_is_text = λ b h. h;
}
