-- ===== src/Account/Additions.antt =====
-- crates/perch-smart-account/src/rules.rs: the policies that an edit adds.
use perch.Common.{
  inl, inr, ◌+◌, ◌≤◌, ◌≡◌, refl, sym, ◌∙◌, ap, Address, Bytes32, Val, Bool, true, false, ◌&&◌, ◌||◌,
  not, List, [], ◌∷◌, ◌++◌, length, arith, ◌==◌, ==_iff, ==_self, Bool-cases, ok,
}
use perch.Account.{InstalledPolicy, policy_eq}
use perch.Account.Reconcile.{has_policy, has_address, has_key, additions, fresh_of, stale_of}
use perch.Account.Slot.{
  keep, kept_policies, new_policies, AddressesDiffer, Apart, Within, has_policy-append,
  has_policy-keep, has_policy-head, Lacks, same_address, has_policy-address, length-keep-not,
  policy_eq_iff,
}

-- The new rule holds its own policies.
Within-cons :
    (p : InstalledPolicy) (ds qs : List InstalledPolicy) → Within ds qs → Within (p ∷ ds) qs
unfolding has_policy
Within-cons p ds [] h = tt
Within-cons p ds (q ∷ qs) (a, h) = (ground (arith, a), Within-cons p ds qs h)

pub Within-self : (ds : List InstalledPolicy) → Within ds ds
Within-self [] = tt
Within-self (p ∷ ds) = (has_policy-head p ds, Within-cons p ds ds (Within-self ds))

pub keep-Within :
    (f : InstalledPolicy → Bool) (ds qs : List InstalledPolicy)
    → Within ds qs
    → Within ds (keep f qs)
keep-Within f ds [] h = tt
keep-Within f ds (q ∷ qs) (a, h) = elim (Bool-cases (f q)) [
  | inl t ↦ rw t (a, keep-Within f ds qs h)
  | inr n ↦ rw n (keep-Within f ds qs h)
]

-- The policies that are not in a list, and what is kept of them.
pub keep-Lacks_self : (cs qs : List InstalledPolicy) → Lacks cs (new_policies cs qs)
keep-Lacks_self cs [] = tt
keep-Lacks_self cs (q ∷ qs) = elim (Bool-cases (has_policy cs q)) [
  | inl t ↦ rw t (keep-Lacks_self cs qs)
  | inr n ↦ rw n (n, keep-Lacks_self cs qs)
]

pub keep-Lacks :
    (f : InstalledPolicy → Bool) (cs qs : List InstalledPolicy) → Lacks cs qs → Lacks cs (keep f qs)
keep-Lacks f cs [] h = tt
keep-Lacks f cs (q ∷ qs) (a, h) = elim (Bool-cases (f q)) [
  | inl t ↦ rw t (a, keep-Lacks f cs qs h)
  | inr n ↦ rw n (keep-Lacks f cs qs h)
]

-- A policy at an address of a list is one of the list.
policy-at :
    (ps : List InstalledPolicy) (a : Address)
    → has_address ps a ≡ true
    → (p : InstalledPolicy) × (has_policy ps p ≡ true) × (p.policy ≡ a)
unfolding has_policy
policy-at [] a h = absurd cc
policy-at (x ∷ ps) a h = elim (Bool-cases (x.policy == a)) [
  | inl t ↦ (x, ground (arith, ==_self x.policy, ==_self x.params), (==_iff x.policy a).0 t)
  | inr n ↦ let (p, k, e) = policy-at ps a (ground (arith, h, n)) in (p, ground (arith, k), e)
]

absent_new :
    (cs ds : List InstalledPolicy) (q : InstalledPolicy)
    → AddressesDiffer ds
    → has_policy ds q ≡ true
    → has_policy cs q ≡ false
    → has_address (kept_policies cs ds) q.policy ≡ false
absent_new cs ds q d h n = elim (Bool-cases (has_address (kept_policies cs ds) q.policy)) [
  | inl t ↦
      let (p, k, e) = policy-at (kept_policies cs ds) q.policy t in
      let b = has_policy-keep (has_policy ds) cs p in
      let i : p ≡ q = same_address ds p q d (ground (arith, k, b)) h e in
      let c : has_policy cs p ≡ true = ground (arith, k, b) in absurd (ground (arith, n, rw i at c))
  | inr m ↦ m
]

Apart-Within :
    (cs ds qs : List InstalledPolicy)
    → AddressesDiffer ds
    → Within ds qs
    → Apart (kept_policies cs ds) (keep (λ p. not (has_policy cs p)) qs)
Apart-Within cs ds [] d w = tt
Apart-Within cs ds (q ∷ qs) d (a, w) = elim (Bool-cases (has_policy cs q)) [
  | inl t ↦ rw t (Apart-Within cs ds qs d w)
  | inr n ↦ rw n (absent_new cs ds q d a n, Apart-Within cs ds qs d w)
]

-- No new policy has the address of a kept one.
pub new_policies-Apart :
    (cs ds : List InstalledPolicy)
    → AddressesDiffer ds
    → Apart (kept_policies cs ds) (new_policies cs ds)
new_policies-Apart cs ds d = Apart-Within cs ds ds d (Within-self ds)

shared_le :
    (p : InstalledPolicy) (cs ds : List InstalledPolicy)
    → length (keep (has_policy cs) ds) ≤ length (keep (has_policy (p ∷ cs)) ds)
unfolding has_policy
shared_le p cs [] = omega arith
shared_le p cs (q ∷ ds) = ground (arith, shared_le p cs ds)

-- One more old policy that the new rule has is one more that the rules share.
shared_suc :
    (p : InstalledPolicy) (cs ds : List InstalledPolicy)
    → has_policy cs p ≡ false
    → has_policy ds p ≡ true
    → length (keep (has_policy cs) ds) + 1 ≤ length (keep (has_policy (p ∷ cs)) ds)
unfolding has_policy
shared_suc p cs [] n h = absurd cc
shared_suc p cs (q ∷ ds) n h = elim (Bool-cases (policy_eq q p)) [
  | inl t ↦
      let e = policy_eq_iff q p t in
      let m : has_policy cs q ≡ false = ap (has_policy cs) e ∙ n in
      let s : policy_eq p q ≡ true = rw e (ground (arith, ==_self p.policy, ==_self p.params)) in
      ground (arith, m, s, shared_le p cs ds)
  | inr m ↦ ground (arith, m, shared_suc p cs ds n (ground (arith, h, m)))
]

absent_policy :
    (cs : List InstalledPolicy) (p : InstalledPolicy)
    → has_address cs p.policy ≡ false
    → has_policy cs p ≡ false
absent_policy cs p h = elim (Bool-cases (has_policy cs p)) [
  | inl t ↦ absurd (ground (arith, h, has_policy-address cs p t))
  | inr n ↦ n
]

-- The policies of the second list at addresses that the first does not have.
abbrev pub fresh_policies : List InstalledPolicy → List InstalledPolicy → List InstalledPolicy
fresh_policies cs ds = keep (λ p. not (has_address cs p.policy)) ds

-- All of them are new.
pub fresh_policies-new :
    (cs ds : List InstalledPolicy) → fresh_policies cs (new_policies cs ds) ≡ fresh_policies cs ds
fresh_policies-new cs [] = refl
fresh_policies-new cs (q ∷ ds) =
    let rest = fresh_policies-new cs ds in
    elim (Bool-cases (has_address cs q.policy)) [
      | inl t ↦ elim (Bool-cases (has_policy cs q)) [
        | inl u ↦ rw (t, u) rest
        | inr n ↦ rw (n, t) rest
      ]
      | inr m ↦ rw (absent_policy cs q m, m) (ap (λ xs. q ∷ xs) rest)
    ]

shared-kept_policies :
    (cs ds : List InstalledPolicy)
    → AddressesDiffer cs
    → length (kept_policies cs ds) ≤ length (keep (has_policy cs) ds)
shared-kept_policies [] ds h = omega arith
shared-kept_policies (p ∷ cs) ds (a, h) = elim (Bool-cases (has_policy ds p)) [
  | inl t ↦
      ground (arith, t, shared-kept_policies cs ds h, shared_suc p cs ds (absent_policy cs p a) t)
  | inr n ↦ ground (arith, n, shared-kept_policies cs ds h, shared_le p cs ds)
]

-- The kept policies and the new ones are no more than those of the new rule.
pub length-new_policies :
    (cs ds : List InstalledPolicy)
    → AddressesDiffer cs
    → length (kept_policies cs ds) + length (new_policies cs ds) ≤ length ds
length-new_policies cs ds h =
    let k = shared-kept_policies cs ds h in
    let l = length-keep-not (has_policy cs) ds in omega (arith, k, l)

-- The kept and the new policies are those of the new rule.
pub has_policy-new_policies :
    (cs ds : List InstalledPolicy) (p : InstalledPolicy)
    → has_policy (kept_policies cs ds ++ new_policies cs ds) p ≡ has_policy ds p
has_policy-new_policies cs ds p = ground (
  arith,
  has_policy-append (kept_policies cs ds) (new_policies cs ds) p,
  has_policy-keep (has_policy ds) cs p,
  has_policy-keep (λ q. not (has_policy cs q)) ds p,
)

module _ (digest : Val → Bytes32) where
  -- The parameters are those that the policies' digests are of.
  abbrev pub Aligned : List InstalledPolicy → List Val → Type 0
  Aligned [] vs = Unit
  Aligned (p ∷ ps) [] = ⊥
  Aligned (p ∷ ps) (v ∷ vs) = (p.params ≡ digest v) × Aligned ps vs

  abbrev pub entry : Address → Val → InstalledPolicy
  entry a v = record { policy = a; params = digest v }

  abbrev pub entries : List (Address × Val) → List InstalledPolicy
  entries [] = []
  entries ((a, v) ∷ adds) = entry a v ∷ entries adds

  pub length-entries : (adds : List (Address × Val)) → length (entries adds) ≡ length adds
  length-entries [] = refl
  length-entries (x ∷ adds) = omega (arith, length-entries adds)

  -- The additions are the new policies with their parameters.
  pub additions-entries :
      (cs ds : List InstalledPolicy) (vs : List Val)
      → Aligned ds vs
      → (adds : List (Address × Val)) × (additions cs ds vs ≡ ok adds)
        × (entries adds ≡ new_policies cs ds)
  unfolding additions
  additions-entries cs [] vs h = ([], refl, refl)
  additions-entries cs (p ∷ ds) [] h = absurd h
  additions-entries cs (p ∷ ds) (v ∷ vs) (a, h) =
      let (adds, e, f) = additions-entries cs ds vs h in
      elim (Bool-cases (has_policy cs p)) [
        | inl t ↦ (adds, rw t e, rw t f)
        | inr n ↦
            let g : entry p.policy v ≡ p = cc in
            ((p.policy, v) ∷ adds, rw (n, e) refl, rw n (cc (f, g)))
      ]

  -- The fresh additions and the others, as policies.
  pub fresh_of-entries :
      (cs : List InstalledPolicy) (adds : List (Address × Val))
      → entries (fresh_of cs adds) ≡ keep (λ p. not (has_address cs p.policy)) (entries adds)
  unfolding fresh_of
  fresh_of-entries cs [] = refl
  fresh_of-entries cs ((a, v) ∷ adds) = elim (Bool-cases (has_address cs a)) [
    | inl t ↦ rw t (fresh_of-entries cs adds)
    | inr n ↦ rw n (ap (λ xs. entry a v ∷ xs) (fresh_of-entries cs adds))
  ]

  pub stale_of-entries :
      (fresh adds : List (Address × Val))
      → entries (stale_of fresh adds) ≡ keep (λ p. not (has_key fresh p.policy)) (entries adds)
  unfolding stale_of
  stale_of-entries fresh [] = refl
  stale_of-entries fresh ((a, v) ∷ adds) = elim (Bool-cases (has_key fresh a)) [
    | inl t ↦ rw t (stale_of-entries fresh adds)
    | inr n ↦ rw n (ap (λ xs. entry a v ∷ xs) (stale_of-entries fresh adds))
  ]

  pub has_key-entries :
      (adds : List (Address × Val)) (a : Address) → has_key adds a ≡ has_address (entries adds) a
  has_key-entries [] a = refl
  has_key-entries ((b, v) ∷ adds) a = ap (λ x. (b == a) || x) (has_key-entries adds a)

  keep_absent-Apart :
      (cs ps : List InstalledPolicy) → Apart cs (keep (λ p. not (has_address cs p.policy)) ps)
  keep_absent-Apart cs [] = tt
  keep_absent-Apart cs (p ∷ ps) = elim (Bool-cases (has_address cs p.policy)) [
    | inl t ↦ rw t (keep_absent-Apart cs ps)
    | inr n ↦ rw n (n, keep_absent-Apart cs ps)
  ]

  pub fresh_of-Apart :
      (cs : List InstalledPolicy) (adds : List (Address × Val))
      → Apart cs (entries (fresh_of cs adds))
  fresh_of-Apart cs adds = rw (fresh_of-entries cs adds) (keep_absent-Apart cs (entries adds))

  keep_key-Apart :
      (fresh : List (Address × Val)) (ps : List InstalledPolicy)
      → Apart (entries fresh) (keep (λ p. not (has_key fresh p.policy)) ps)
  keep_key-Apart fresh [] = tt
  keep_key-Apart fresh (p ∷ ps) = elim (Bool-cases (has_key fresh p.policy)) [
    | inl t ↦ rw t (keep_key-Apart fresh ps)
    | inr n ↦ rw n (sym (has_key-entries fresh p.policy) ∙ n, keep_key-Apart fresh ps)
  ]

  pub stale_of-Apart :
      (fresh adds : List (Address × Val)) → Apart (entries fresh) (entries (stale_of fresh adds))
  stale_of-Apart fresh adds = rw (stale_of-entries fresh adds) (keep_key-Apart fresh (entries adds))

  keep-agree :
      (f g : InstalledPolicy → Bool) (ps qs : List InstalledPolicy)
      → Within ps qs
      → ((p : InstalledPolicy) → has_policy ps p ≡ true → f p ≡ g p)
      → keep f qs ≡ keep g qs
  keep-agree f g ps [] w h = refl
  keep-agree f g ps (q ∷ qs) (a, w) h =
      let e = h q a in
      elim (Bool-cases (g q)) [
        | inl t ↦ rw (e, t) (ap (λ xs. q ∷ xs) (keep-agree f g ps qs w h))
        | inr n ↦ rw (e, n) (keep-agree f g ps qs w h)
      ]

  has_address-fresh :
      (cs ps : List InstalledPolicy) (a : Address)
      → has_address (keep (λ p. not (has_address cs p.policy)) ps) a
        ≡ (has_address ps a && not (has_address cs a))
  has_address-fresh cs [] a = refl
  has_address-fresh cs (p ∷ ps) a = elim (Bool-cases (p.policy == a)) [
    | inl t ↦
        let e : p.policy ≡ a = (==_iff p.policy a).0 t in
        ground (arith, t, ap (has_address cs) e, has_address-fresh cs ps a)
    | inr n ↦ ground (arith, n, has_address-fresh cs ps a)
  ]

  -- The additions that are not fresh, as policies.
  pub stale_of-keep :
      (cs : List InstalledPolicy) (adds : List (Address × Val))
      → entries (stale_of (fresh_of cs adds) adds)
        ≡ keep (λ p. not (not (has_address cs p.policy))) (entries adds)
  stale_of-keep cs adds =
      stale_of-entries (fresh_of cs adds) adds
      ∙ keep-agree _ _ (entries adds) (entries adds) (Within-self (entries adds)) (λ p h.
        let k = has_policy-address (entries adds) p h in
        let e : has_key (fresh_of cs adds) p.policy
            ≡ (has_address (entries adds) p.policy && not (has_address cs p.policy)) =
          has_key-entries (fresh_of cs adds) p.policy
          ∙ (ap (λ xs. has_address xs p.policy) (fresh_of-entries cs adds)
              ∙ has_address-fresh cs (entries adds) p.policy) in
        ground (arith, e, k))

  pub length-fresh_of :
      (cs : List InstalledPolicy) (adds : List (Address × Val))
      → length (entries (fresh_of cs adds)) + length (entries (stale_of (fresh_of cs adds) adds))
        ≡ length (entries adds)
  length-fresh_of cs adds =
      rw (fresh_of-entries cs adds, stale_of-keep cs adds)
        (length-keep-not (λ p. not (has_address cs p.policy)) (entries adds))

  pub has_policy-fresh_of :
      (cs : List InstalledPolicy) (adds : List (Address × Val)) (p : InstalledPolicy)
      → has_policy (entries (fresh_of cs adds) ++ entries (stale_of (fresh_of cs adds) adds)) p
        ≡ has_policy (entries adds) p
  has_policy-fresh_of cs adds p =
      let f = λ (q : InstalledPolicy). not (has_address cs q.policy) in
      rw (fresh_of-entries cs adds, stale_of-keep cs adds)
        (ground (
          arith,
          has_policy-append (keep f (entries adds)) (keep (λ q. not (f q)) (entries adds)) p,
          has_policy-keep f (entries adds) p,
          has_policy-keep (λ q. not (f q)) (entries adds) p,
        ))
