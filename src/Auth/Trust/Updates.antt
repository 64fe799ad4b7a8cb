-- ===== src/Auth/Trust/Updates.antt =====
-- What the revocations of a trust guarantee, over any sequence of updates.
use rtn_mq.Prelude.{
  Option-cases, ℕ, ◌≤◌, ◌≡◌, refl, ◌∙◌, true, false, not, ◌&&◌, arith, inl, inr, leb, List, [], ◌∷◌,
  length,
}
use rtn_mq.Prelude.Bytes.{Bytes, bytes_key}
use rtn_mq.Prelude.Map.{
  contains_key, get, insert, length-insert-le, length-insert-present, IsSorted, insert-IsSorted,
}
use rtn_mq.Error.{ok, err, unauthorized, Result-cases}
use rtn_mq.Crypto.{Iroh}
use rtn_mq.Cbor.{Minicbor, MinicborLaws}
use rtn_mq.Auth.Claims.{Certificate}
use rtn_mq.Auth.Trust.{
  new_trust, max_revoked, IdSet, Trust, deny_certificate, apply_revocations, check,
}
use rtn_mq.Auth.Trust.Revocation.{contains-insert, apply_revocations_sound}

-- The updates of a trust; one that fails leaves it as it is.
pub data Update : Type 0 where
  deny : Bytes → Update
  apply : Bytes → ℕ → Update

module _ ⦃m : Minicbor⦄ ⦃c : Iroh⦄ where
  unfoldable pub update : Update → Trust → Trust
  update (deny id) t = elim (deny_certificate id t) [ ok t' ↦ t' | err e ↦ t ]
  update (apply snapshot now) t = elim (apply_revocations snapshot now t) [ ok t' ↦ t' | err e ↦ t ]

  unfoldable pub updates : List Update → Trust → Trust
  updates [] t = t
  updates (x ∷ xs) t = updates xs (update x t)

-- The denied ids form a set within the bound.
abbrev pub IsBounded : Trust → Type 0
IsBounded t = IsSorted t.revoked × (length t.revoked ≤ max_revoked)

module _ ⦃m : Minicbor⦄ (laws : MinicborLaws m) ⦃c : Iroh⦄ where
  -- What any update keeps.
  pub record Grows (t t' : Trust) : Type 0 where
    pub older : t.revocation_version ≤ t'.revocation_version
    pub denied : (id : Bytes) → contains_key id t.revoked ≡ true → contains_key id t'.revoked ≡ true
    pub bounded : IsBounded t → IsBounded t'
    pub same_realm : t'.realm ≡ t.realm

  Grows-refl : (t : Trust) → Grows t t
  Grows-refl t = record {
    older = omega arith;
    denied = λ id h. h;
    bounded = λ h. h;
    same_realm = refl;
  }

  pub deny-Grows : (id : Bytes) (t t' : Trust) → deny_certificate id t ≡ ok t' → Grows t t'
  unfolding deny_certificate
  deny-Grows id t t' h =
      let adds : t' ≡ record t { revoked = insert id tt t.revoked } = ground arith in
      record {
        older = ground arith;
        denied = λ j k. ground (arith, contains-insert j id t.revoked);
        bounded = λ (sorted, b).
            rw adds
              (insert-IsSorted id tt t.revoked sorted, size t.revoked sorted b (ground arith));
        same_realm = ground arith;
      }
    where
      size :
          (s : IdSet)
          → IsSorted s
          → length s ≤ max_revoked
          → (leb max_revoked (length s) && not (contains_key id s)) ≡ false
          → length (insert id tt s) ≤ max_revoked
      size s sorted b h = elim (Option-cases (get id s)) [
        | inl e ↦ ground (arith, length-insert-le id tt s)
        | inr (v, e) ↦ omega (arith, length-insert-present id tt s sorted e)
      ]

  pub apply-Grows :
      (input : Bytes) (now : ℕ) (t t' : Trust) → apply_revocations input now t ≡ ok t' → Grows t t'
  apply-Grows input now t t' h =
      let (s, signed, a) = apply_revocations_sound laws input now t t' h in
      record {
        older = omega (arith, a.newer);
        denied = λ j k. ground (arith, a.revokes j);
        bounded = λ b. (a.sorted, a.bound);
        same_realm = a.keeps.0;
      }

  update-Grows : (x : Update) (t : Trust) → Grows t (update x t)
  unfolding update
  update-Grows (deny id) t = elim (Result-cases (deny_certificate id t)) [
    | inl (t', e) ↦ rw (update, e) (deny-Grows id t t' e)
    | inr (x, e) ↦ rw (update, e) (Grows-refl t)
  ]
  update-Grows (apply input now) t = elim (Result-cases (apply_revocations input now t)) [
    | inl (t', e) ↦ rw (update, e) (apply-Grows input now t t' e)
    | inr (x, e) ↦ rw (update, e) (Grows-refl t)
  ]

  updates-Grows : (xs : List Update) (t : Trust) → Grows t (updates xs t)
  unfolding updates
  updates-Grows [] t = Grows-refl t
  updates-Grows (x ∷ xs) t =
      let first = update-Grows x t in
      let rest = updates-Grows xs (update x t) in
      record {
        older = omega (arith, first.older, rest.older);
        denied = λ id h. rest.denied id (first.denied id h);
        bounded = λ h. rest.bounded (first.bounded h);
        same_realm = rest.same_realm ∙ first.same_realm;
      }

  pub new_trust-IsBounded : (realm root : Bytes) → IsBounded (new_trust realm root)
  unfolding new_trust
  new_trust-IsBounded realm root = (tt, omega arith)

  -- From a new trust on, whatever snapshots and denials arrive in whatever order, at most 4096
  -- certificates are denied, the version of the revocations never falls, and the realm stays.
  pub updates-bounded :
      (realm root : Bytes) (before after : List Update)
      → let t = updates before (new_trust realm root) in
        (length t.revoked ≤ max_revoked)
        × (t.revocation_version ≤ (updates after t).revocation_version)
        × (t.realm ≡ realm)
  unfolding new_trust
  updates-bounded realm root before after =
      let start = updates-Grows before (new_trust realm root) in
      (
        (start.bounded (new_trust-IsBounded realm root)).1,
        (updates-Grows after (updates before (new_trust realm root))).older,
        start.same_realm,
      )

  -- A certificate that is denied is refused as unauthorized after any further updates, whoever presents
  -- it and at any time.
  pub check-updates :
      (t : Trust) (xs : List Update) (cert : Certificate) (peer : Bytes) (now : ℕ)
      → contains_key cert.id t.revoked ≡ true
      → check (updates xs t) cert peer now ≡ err unauthorized
  unfolding check
  check-updates t xs cert peer now h =
      let still = (updates-Grows xs t).denied cert.id h in ground (arith, still)
