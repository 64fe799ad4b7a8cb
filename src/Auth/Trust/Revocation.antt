-- ===== src/Auth/Trust/Revocation.antt =====
-- What an update of the revocations accepts and changes.
use rtn_mq.Prelude.{
  ℕ, ◌*◌, ◌<◌, ◌≤◌, ◌≡◌, refl, ap, subst, Bool, false, ◌||◌, some, arith, List, [], ◌∷◌, length,
  any,
}
use rtn_mq.Prelude.Bytes.{Bytes, bytes_key, bytes_eq}
use rtn_mq.Prelude.Map.{contains_key, get, insert, get-insert, IsSorted, insert-IsSorted}
use rtn_mq.Error.{ok, and_then, >>=-eq-ok}
use rtn_mq.Crypto.{Iroh}
use rtn_mq.Cbor.{Minicbor, MinicborLaws, run_reader, run_reader-eq-ok, canonical}
use rtn_mq.Cbor.RoundTrip.{canonical_sound}
use rtn_mq.Auth.Cose.{verify_cose}
use rtn_mq.Auth.Cose.Acceptance.{Signed, verify_cose_iff}
use rtn_mq.Auth.Trust.{
  revocation_context, max_revoked, IdSet, Trust, extend, ids_of, Snapshot, snapshot_bytes,
  read_snapshot, accept_snapshot, apply_revocations,
}

pub contains-insert :
    (k id : Bytes) (s : IdSet)
    → contains_key k (insert id tt s) ≡ (bytes_eq id k || contains_key k s)
contains-insert k id s = ground (arith, get-insert id k tt s)

-- An extended set has the ids of the list and those that it had.
contains-extend :
    (k : Bytes) (ids : List Bytes) (s : IdSet)
    → contains_key k (extend ids s) ≡ (any (λ id. bytes_eq id k) ids || contains_key k s)
unfolding extend
contains-extend k [] s = refl
contains-extend k (id ∷ ids) s =
    ground (arith, contains-extend k ids (insert id tt s), contains-insert k id s)

any-ids_of : (k : Bytes) (s : IdSet) → any (λ id. bytes_eq id k) (ids_of s) ≡ contains_key k s
unfolding ids_of get
any-ids_of k [] = refl
any-ids_of k ((id, v) ∷ s) = ground (arith, any-ids_of k s)

extend-IsSorted : (ids : List Bytes) (s : IdSet) → IsSorted s → IsSorted (extend ids s)
unfolding extend
extend-IsSorted [] s h = h
extend-IsSorted (id ∷ ids) s h = extend-IsSorted ids (insert id tt s) (insert-IsSorted id tt s h)

contains_nil : (k : Bytes) → contains_key {V = Unit {0}} k [] ≡ false
unfolding get
contains_nil k = refl

or_false : (b : Bool) → (b || false) ≡ b
or_false b = ground arith

-- What an accepted snapshot was, and what it changes.
pub record Accepted ⦃m : Minicbor⦄ (t t' : Trust) (now : ℕ) (s : Snapshot) : Type 0 where
  pub newer : t.revocation_version < s.number
  pub begun : s.issued ≤ now
  pub not_over : now < s.expires
  pub sets_version : t'.revocation_version ≡ s.number
  pub sets_freshness : t'.freshness ≡ some s.expires
  pub bound : length t'.revoked ≤ max_revoked
  pub sorted : IsSorted t'.revoked
  pub revokes :
      (id : Bytes)
      → contains_key id t'.revoked ≡ (contains_key id t.revoked || any (λ i. bytes_eq i id) s.ids)
  pub keeps : (t'.realm ≡ t.realm) × (t'.root ≡ t.root) × (t'.clock_skew_secs ≡ t.clock_skew_secs)

module _ ⦃m : Minicbor⦄ where
  read_snapshot_sound :
      (t : Trust) (now : ℕ) (b rest : Bytes) (s : Snapshot)
      → read_snapshot t now b b ≡ ok (s, rest)
      → (canonical b (snapshot_bytes t.realm s) ≡ ok tt)
        × (t.revocation_version < s.number)
        × (s.issued ≤ now)
        × (now < s.expires)
  unfolding read_snapshot
  read_snapshot_sound t now b rest s h = ground arith

  accept_snapshot-Accepted :
      (t t' : Trust) (now : ℕ) (s : Snapshot)
      → t.revocation_version < s.number
      → s.issued ≤ now
      → now < s.expires
      → accept_snapshot t s ≡ ok t'
      → Accepted t t' now s
  unfolding accept_snapshot
  accept_snapshot-Accepted t t' now s newer begun not_over h =
      let ids = extend (ids_of t.revoked) (extend s.ids []) in
      record {
        newer = newer;
        begun = begun;
        not_over = not_over;
        sets_version = ground arith;
        sets_freshness = ground arith;
        bound = ground arith;
        sorted =
            let set : t'.revoked ≡ ids = ground arith in
            rw set
              (extend-IsSorted (ids_of t.revoked) (extend s.ids []) (extend-IsSorted s.ids [] tt));
        revokes = λ id.
            let set : t'.revoked ≡ ids = ground arith in
            rw
              (
                set,
                contains-extend id (ids_of t.revoked) (extend s.ids []),
                contains-extend id s.ids [],
                any-ids_of id t.revoked,
                contains_nil id,
              )
              (ap (◌||◌ (contains_key id t.revoked)) (or_false (any (λ i. bytes_eq i id) s.ids)));
        keeps = ground arith;
      }

module _ ⦃m : Minicbor⦄ (laws : MinicborLaws m) ⦃c : Iroh⦄ where
  -- An accepted update of the revocations is a snapshot that the root has signed for the realm, newer
  -- than the one before and current; the trust then denies exactly what it denied before and what the
  -- snapshot names, at most 4096 certificates, and takes its version and deadline; nothing else changes.
  pub apply_revocations_sound :
      (input : Bytes) (now : ℕ) (t t' : Trust)
      → apply_revocations input now t ≡ ok t'
      → (s : Snapshot) × Signed laws input t.root revocation_context
          (128 * 1024)
          (snapshot_bytes t.realm s)
        × Accepted t t' now s
  unfolding apply_revocations
  apply_revocations_sound input now t t' h =
      let (b, signed, h') =
        >>=-eq-ok (verify_cose input t.root revocation_context (128 * 1024))
          (λ b. and_then (run_reader (read_snapshot t now b) b) (accept_snapshot t)) h in
      let (s, read, accepted) =
        >>=-eq-ok (run_reader (read_snapshot t now b) b) (accept_snapshot t) h' in
      let (rest, read') = run_reader-eq-ok (read_snapshot t now b) b {a = s} read in
      let (same, newer, begun, not_over) = read_snapshot_sound t now b rest s read' in
      (
        s,
        subst (Signed laws input t.root revocation_context (128 * 1024))
            (canonical_sound b (snapshot_bytes t.realm s) same)
            ((verify_cose_iff laws input t.root revocation_context (128 * 1024) b (omega arith)).0
              signed),
        accept_snapshot-Accepted t t' now s newer begun not_over accepted,
      )
