-- ===== src/Recovery/Credential/Revocations.antt =====
-- crates/perch-recovery-interface/src/credential.rs: which credentials a completion revokes.
use perch.Common.{
  Bytes32, Bool, true, false, ◌&&◌, ◌||◌, not, List, [], ◌∷◌, ◌++◌, ◌==◌, ◌≡◌, inl, inr, arith,
  contains, contains-append, Bool-cases, if◌then◌else◌,
}
use perch.Recovery.Credential.{push_new, push_dropped, revocations, replaced_credentials_leave}

-- `out` with an element that is missing.
contains-add :
    (skip : Bool) (out : List Bytes32) (f g : Bytes32)
    → contains (if skip then out else out ++ f ∷ []) g ≡ (contains out g || (not skip && (f == g)))
contains-add true out f g = ground arith
contains-add false out f g = contains-append out f g

contains-eq : (xs : List Bytes32) (f g : Bytes32) → (f == g) ≡ true → contains xs f ≡ contains xs g
contains-eq xs f g h = ground arith

contains-push_new :
    (fs out : List Bytes32) (g : Bytes32)
    → contains (push_new fs out) g ≡ (contains out g || contains fs g)
unfolding push_new
contains-push_new [] out g = ground arith
contains-push_new (f ∷ fs) out g =
    let ih = contains-push_new fs (if contains out f then out else out ++ f ∷ []) g in
    ground (arith, ih, contains-add (contains out f) out f g, contains-eq out f g)

contains-push_dropped :
    (fs target out : List Bytes32) (g : Bytes32)
    → contains (push_dropped fs target out) g
      ≡ (contains out g || (contains fs g && not (contains target g)))
unfolding push_dropped
contains-push_dropped [] target out g = ground arith
contains-push_dropped (f ∷ fs) target out g =
    let skip = contains target f || contains out f in
    let ih = contains-push_dropped fs target (if skip then out else out ++ f ∷ []) g in
    ground (arith, ih, contains-add skip out f g, contains-eq out f g, contains-eq target f g)

-- A completion revokes exactly the replaced credentials and those of the current document that the
-- target does not have.
pub contains-revocations :
    (replaced current target : List Bytes32) (f : Bytes32)
    → contains (revocations replaced current target) f
      ≡ (contains replaced f || (contains current f && not (contains target f)))
unfolding revocations
contains-revocations replaced current target f = ground (
  arith,
  contains-push_dropped current target (push_new replaced []) f,
  contains-push_new replaced [] f,
)

leave-not_contains :
    (replaced target : List Bytes32) (f : Bytes32)
    → replaced_credentials_leave replaced target ≡ true
    → contains replaced f ≡ true
    → contains target f ≡ false
unfolding replaced_credentials_leave
leave-not_contains [] target f h m = cc
leave-not_contains (g ∷ gs) target f h m = elim (Bool-cases (g == f)) [
  | inl e ↦ ground (arith, e, h, contains-eq target g f)
  | inr e ↦ leave-not_contains gs target f (ground (arith, h)) (ground (arith, e, m))
]

-- When the replaced credentials leave, nothing that a completion revokes is in its target: the account
-- that the completion leaves behind holds no revoked credential.
pub revocations-leave :
    (replaced current target : List Bytes32) (f : Bytes32)
    → replaced_credentials_leave replaced target ≡ true
    → contains (revocations replaced current target) f ≡ true
    → contains target f ≡ false
revocations-leave replaced current target f h m = elim (Bool-cases (contains replaced f)) [
  | inl e ↦ leave-not_contains replaced target f h e
  | inr e ↦ ground (arith, contains-revocations replaced current target f, m, e)
]
