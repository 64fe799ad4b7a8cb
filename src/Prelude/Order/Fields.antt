-- ===== src/Prelude/Order/Fields.antt =====
-- The order that Rust derives for a record: by its fields, the first of them first.
use Prim.Native.Nat.{ℕ}
use mathlib.Core.Path.{◌≡◌, ap}
use mathlib.Core.Bool.{Bool, true, false, ◌&&◌, ◌||◌}
use native.Mathlib.Omega.{arith}
use rtn_mq.Prelude.Tests.{ltb, ◌==◌, ==_iff}
use rtn_mq.Prelude.Order.{Key}

pub ltb_irrefl : (a : ℕ) → ltb a a ≡ false
ltb_irrefl a = ground arith

pub ltb_trans : (a b c : ℕ) → ltb a b ≡ true → ltb b c ≡ true → ltb a c ≡ true
ltb_trans a b c h k = ground arith

pub ltb_total : (a b : ℕ) → ltb a b ≡ false → (a == b) ≡ false → ltb b a ≡ true
ltb_total a b h k = ground arith

instance abbrev pub number_key : Key ℕ
number_key = record {
  same = ◌==◌;
  less = ltb;
  same_iff = ==_iff;
  less_irrefl = ltb_irrefl;
  less_trans = ltb_trans;
  less_total = ltb_total;
}

module _ {ℓ κ} {A : Type ℓ} {B : Type κ} (a : Key A) (b : Key B) where
  abbrev pub same_pair : A × B → A × B → Bool
  same_pair (x, y) (x', y') = a.same x x' && b.same y y'

  abbrev pub less_pair : A × B → A × B → Bool
  less_pair (x, y) (x', y') = a.less x x' || (a.same x x' && b.less y y')

  pub same_pair_sound : (p q : A × B) → same_pair p q ≡ true → p ≡ q
  same_pair_sound (x, y) (x', y') h = ground (arith, a.same_iff x x', b.same_iff y y')

  pub same_pair_refl : (p : A × B) → same_pair p p ≡ true
  same_pair_refl (x, y) = ground (arith, a.same_iff x x, b.same_iff y y)

  pub less_pair_irrefl : (p : A × B) → less_pair p p ≡ false
  less_pair_irrefl (x, y) = ground (arith, a.less_irrefl x, b.less_irrefl y)

  pub less_pair_trans :
      (p q r : A × B) → less_pair p q ≡ true → less_pair q r ≡ true → less_pair p r ≡ true
  less_pair_trans (x, y) (x', y') (x'', y'') h k = ground (
    arith,
    a.less_trans x x' x'',
    b.less_trans y y' y'',
    a.same_iff x x',
    a.same_iff x' x'',
    a.same_iff x x'',
  )

  pub less_pair_total :
      (p q : A × B) → less_pair p q ≡ false → same_pair p q ≡ false → less_pair q p ≡ true
  less_pair_total (x, y) (x', y') h k =
      ground (arith, a.less_total x x', b.less_total y y', a.same_iff x x', a.same_iff x' x)

  abbrev pub by_pair : Key (A × B)
  by_pair = record {
    same = same_pair;
    less = less_pair;
    same_iff = λ p q. (same_pair_sound p q, λ e. rw e (same_pair_refl q));
    less_irrefl = less_pair_irrefl;
    less_trans = less_pair_trans;
    less_total = less_pair_total;
  }

-- A record is ordered as its fields are.
module _ {ℓ κ} {A : Type ℓ} {R : Type κ} (key : Key A) (fields : R → A) where
  abbrev pub by_fields : ((r s : R) → fields r ≡ fields s → r ≡ s) → Key R
  by_fields injective = record {
    same = λ r s. key.same (fields r) (fields s);
    less = λ r s. key.less (fields r) (fields s);
    same_iff = λ r s. (
      λ h. injective r s ((key.same_iff (fields r) (fields s)).0 h),
      λ e. (key.same_iff (fields r) (fields s)).1 (ap fields e),
    );
    less_irrefl = λ r. key.less_irrefl (fields r);
    less_trans = λ r s t. key.less_trans (fields r) (fields s) (fields t);
    less_total = λ r s. key.less_total (fields r) (fields s);
  }
