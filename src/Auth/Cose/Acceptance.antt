-- ===== src/Auth/Cose/Acceptance.antt =====
-- What `verify_cose` accepts: the one encoding of a payload that the key has signed in the context.
use rtn_mq.Prelude.{
  ℕ, ◌<◌, ◌≤◌, ◌≡◌, refl, true, [], length, length-append, arith, ◌↔◌, ap, ◌∙◌, subst, ltb, inl,
  inr, Bool-cases,
}
use rtn_mq.Prelude.Bytes.{Bytes, bytes_eq_refl}
use rtn_mq.Error.{ok, Result-cases}
use rtn_mq.Crypto.{Iroh, IrohLaws}
use rtn_mq.Cbor.{Minicbor, MinicborLaws, u64_mod, fixed, end, canonical, run_reader-eq-ok}
use rtn_mq.Cbor.RoundTrip.{
  array-put, bytes-put, fixed-put, empty_map-put, canonical_refl, canonical_sound,
}
use rtn_mq.Auth.Cose.{protected, signing_bytes, cose, read_cose, parse_cose, sign_cose, verify_cose}

module _ ⦃m : Minicbor⦄ where
  fixed_size : (n : ℕ) (b s rest : Bytes) → fixed n b ≡ ok (s, rest) → length s ≡ n
  unfolding fixed
  fixed_size n b s rest h = ground arith

  read_cose_sound :
      (input : Bytes) (max : ℕ) (b : Bytes) (payload signature rest : Bytes)
      → read_cose input max b ≡ ok ((payload, signature), rest)
      → (canonical input (cose payload signature) ≡ ok tt) × (length signature ≡ 64)
  unfolding read_cose fixed canonical
  read_cose_sound input max b payload signature rest h = ground arith

  -- The input of an accepted container is its one encoding.
  pub parse_cose_sound :
      (input : Bytes) (max : ℕ) (payload signature : Bytes)
      → parse_cose input max ≡ ok (payload, signature)
      → (input ≡ cose payload signature) × (length signature ≡ 64) × (length input ≤ max)
  unfolding parse_cose
  parse_cose_sound input max payload signature h = elim (Bool-cases (ltb max (length input))) [
    | inl large ↦ absurd (ground arith)
    | inr fits ↦
        let (rest, e) =
          run_reader-eq-ok (read_cose input max) input {a = (payload, signature)} (ground arith) in
        let (c, l) = read_cose_sound input max input payload signature rest e in
        (canonical_sound input _ c, l, ground arith)
  ]

  module _ (laws : MinicborLaws m) where
    payload-le-cose : (payload signature : Bytes) → length payload ≤ length (cose payload signature)
    unfolding cose
    payload-le-cose payload signature = omega (arith, length-append {0}, laws.bytes_size payload)

    read_cose-cose :
        (input : Bytes) (max : ℕ) (payload signature : Bytes)
        → length signature ≡ 64
        → length payload ≤ max
        → max < u64_mod
        → canonical input (cose payload signature) ≡ ok tt
        → read_cose input max (cose payload signature) ≡ ok ((payload, signature), [])
    unfolding read_cose end cose
    read_cose-cose input max payload signature h k w e = simp (
      λ (rest : Bytes). array-put laws 4 rest (omega arith),
      λ (rest : Bytes). bytes-put laws 3 protected rest (omega arith) (omega arith),
      bytes_eq_refl protected,
      empty_map-put laws,
      λ (rest : Bytes). bytes-put laws max payload rest k w,
      λ (rest : Bytes). fixed-put laws 64 signature rest h (omega arith),
      e,
    )

    -- The encoding of a payload is accepted, and gives the payload back.
    pub parse_cose-cose :
        (max : ℕ) (payload signature : Bytes)
        → length signature ≡ 64
        → length (cose payload signature) ≤ max
        → max < u64_mod
        → parse_cose (cose payload signature) max ≡ ok (payload, signature)
    unfolding parse_cose
    parse_cose-cose max payload signature h k w =
        let read : read_cose (cose payload signature) max (cose payload signature)
            ≡ ok ((payload, signature), []) =
          read_cose-cose (cose payload signature) max payload signature h
            (omega (arith, payload-le-cose payload signature)) w (canonical_refl _) in
        ground (arith, read)

module _ ⦃m : Minicbor⦄ (laws : MinicborLaws m) ⦃c : Iroh⦄ where
  -- A signed payload as `verify_cose` wants it.
  pub record Signed (input key context : Bytes) (max : ℕ) (payload : Bytes) : Type 0 where
    pub signature : Bytes
    pub encoding : input ≡ cose payload signature
    pub size : length signature ≡ 64
    pub within : length input ≤ max
    pub verified : c.verify key (signing_bytes payload context) signature ≡ true

  verify_cose-Signed :
      (input key context : Bytes) (max : ℕ) (payload : Bytes)
      → verify_cose input key context max ≡ ok payload
      → Signed input key context max payload
  unfolding verify_cose
  verify_cose-Signed input key context max payload h = elim (Result-cases (parse_cose input max)) [
    | inl ((p, s), e) ↦
        let (enc, size, within) = parse_cose_sound input max p s e in
        let same : p ≡ payload = ground arith in
        record {
          signature = s;
          encoding = enc ∙ ap (λ q. cose q s) same;
          size = size;
          within = within;
          verified = ground arith;
        }
    | inr (x, e) ↦ absurd (ground arith)
  ]

  Signed-verify_cose :
      (input key context : Bytes) (max : ℕ) (payload : Bytes)
      → max < u64_mod
      → Signed input key context max payload
      → verify_cose input key context max ≡ ok payload
  unfolding verify_cose
  Signed-verify_cose input key context max payload w s =
      let parsed : parse_cose input max ≡ ok (payload, s.signature) = rw s.encoding (
        parse_cose-cose laws max payload s.signature s.size
          (subst (λ b. length b ≤ max) s.encoding s.within) w) in
      ground (arith, parsed, s.verified)

  -- `verify_cose` accepts an input with a payload exactly when the input is the one encoding of that
  -- payload with a signature of 64 bytes which verifies under the key in the context, and is no
  -- longer than the limit of the caller, which a `u64` can hold.
  pub verify_cose_iff :
      (input key context : Bytes) (max : ℕ) (payload : Bytes)
      → max < u64_mod
      → (verify_cose input key context max ≡ ok payload) ↔ Signed input key context max payload
  verify_cose_iff input key context max payload w = (
    verify_cose-Signed input key context max payload,
    Signed-verify_cose input key context max payload w,
  )

  -- What a key signs in a context verifies under its public key in that context, if it fits.
  pub verify_cose-sign_cose :
      (keys : IrohLaws c) (payload secret context : Bytes) (max : ℕ)
      → length (sign_cose payload secret context) ≤ max
      → max < u64_mod
      → verify_cose (sign_cose payload secret context) (c.public secret) context max ≡ ok payload
  unfolding sign_cose
  verify_cose-sign_cose keys payload secret context max k w =
      Signed-verify_cose _ _ context max payload w (record {
        signature = c.sign secret (signing_bytes payload context);
        encoding = refl;
        size = keys.sign_size secret _;
        within = k;
        verified = keys.verify_sign secret _;
      })

module _ ⦃m : Minicbor⦄ ⦃c : Iroh⦄ where
  -- The payload that `verify_cose` returns is the one that `parse_cose` reads.
  pub verify_cose-payload :
      (input key context : Bytes) (max : ℕ) {payload signature read : Bytes}
      → parse_cose input max ≡ ok (payload, signature)
      → verify_cose input key context max ≡ ok read
      → verify_cose input key context max ≡ ok payload
  unfolding verify_cose
  verify_cose-payload input key context max e h = ground arith
