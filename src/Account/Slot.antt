-- ===== src/Account/Slot.antt =====
-- crates/perch-smart-account/src/rules.rs: the policies of a rule while it is edited.
use perch.Common.{
  inl, inr, ◌+◌, ◌≤◌, ◌≡◌, refl, sym, ◌∙◌, ap, Address, Bool, true, false, ◌&&◌, ◌||◌, not, List,
  [], ◌∷◌, ◌++◌, length, contains, arith, ◌==◌, ==_iff, ==_self, Bool-cases, if◌then◌else◌,
}
use perch.Account.{InstalledPolicy, policy_eq}
use perch.Account.Reconcile.{has_policy, has_address, removals}

abbrev pub keep : (InstalledPolicy → Bool) → List InstalledPolicy → List InstalledPolicy
keep f [] = []
keep f (p ∷ ps) = let rest = keep f ps in if f p then p ∷ rest else rest

-- The policies of both rules, and those of the new rule alone.
abbrev pub kept_policies : List InstalledPolicy → List InstalledPolicy → List InstalledPolicy
kept_policies cs ds = keep (has_policy ds) cs

abbrev pub new_policies : List InstalledPolicy → List InstalledPolicy → List InstalledPolicy
new_policies cs ds = keep (λ p. not (has_policy cs p)) ds

abbrev pub without : Address → List InstalledPolicy → List InstalledPolicy
without a [] = []
without a (p ∷ ps) = let rest = without a ps in if p.policy == a then rest else p ∷ rest

abbrev pub without_all : List Address → List InstalledPolicy → List InstalledPolicy
without_all [] ps = ps
without_all (a ∷ rs) ps = without_all rs (without a ps)

-- A policy of the old rule that the new one lacks and that is still there.
pub record Leaves (cs ds ps : List InstalledPolicy) (p : InstalledPolicy) : Type 0 where
  pub old : has_policy cs p ≡ true
  pub dropped : has_policy ds p ≡ false
  pub held : has_policy ps p ≡ true

-- Each address is that of a leaving policy when its turn comes.
abbrev pub Removable :
    List InstalledPolicy → List InstalledPolicy → List Address → List InstalledPolicy → Type 0
Removable cs ds [] ps = Unit
Removable cs ds (a ∷ rs) ps =
    ((p : InstalledPolicy) × (p.policy ≡ a) × Leaves cs ds ps p) × Removable cs ds rs (without a ps)

-- No policy of the second list is in the first.
abbrev pub Lacks : List InstalledPolicy → List InstalledPolicy → Type 0
Lacks cs [] = Unit
Lacks cs (q ∷ qs) = (has_policy cs q ≡ false) × Lacks cs qs

-- No two policies have one address.
abbrev pub AddressesDiffer : List InstalledPolicy → Type 0
AddressesDiffer [] = Unit
AddressesDiffer (p ∷ ps) = (has_address ps p.policy ≡ false) × AddressesDiffer ps

-- No policy of the second list has an address of the first.
abbrev pub Apart : List InstalledPolicy → List InstalledPolicy → Type 0
Apart ps [] = Unit
Apart ps (q ∷ qs) = (has_address ps q.policy ≡ false) × Apart ps qs

abbrev pub Within : List InstalledPolicy → List InstalledPolicy → Type 0
Within ds [] = Unit
Within ds (q ∷ qs) = (has_policy ds q ≡ true) × Within ds qs

pub has_address-append :
    (ps qs : List InstalledPolicy) (a : Address)
    → has_address (ps ++ qs) a ≡ (has_address ps a || has_address qs a)
has_address-append [] qs a = refl
has_address-append (p ∷ ps) qs a = ground (arith, has_address-append ps qs a)

pub policy_eq_iff : (p q : InstalledPolicy) → policy_eq p q ≡ true → p ≡ q
policy_eq_iff p q h =
    let a : p.policy ≡ q.policy = (==_iff p.policy q.policy).0 (ground (arith, h)) in
    let b : p.params ≡ q.params = (==_iff p.params q.params).0 (ground (arith, h)) in cc

pub has_policy-append :
    (ps qs : List InstalledPolicy) (p : InstalledPolicy)
    → has_policy (ps ++ qs) p ≡ (has_policy ps p || has_policy qs p)
unfolding has_policy
has_policy-append [] qs p = refl
has_policy-append (x ∷ ps) qs p = ground (arith, has_policy-append ps qs p)

pub has_policy-keep :
    (f : InstalledPolicy → Bool) (ps : List InstalledPolicy) (p : InstalledPolicy)
    → has_policy (keep f ps) p ≡ (has_policy ps p && f p)
unfolding has_policy
has_policy-keep f [] p = refl
has_policy-keep f (x ∷ ps) p = elim (Bool-cases (policy_eq x p)) [
  | inl t ↦
      let e : f x ≡ f p = ap f (policy_eq_iff x p t) in ground (arith, t, e, has_policy-keep f ps p)
  | inr n ↦ ground (arith, n, has_policy-keep f ps p)
]

-- A policy of the list has its address there.
pub has_policy-address :
    (ps : List InstalledPolicy) (p : InstalledPolicy)
    → has_policy ps p ≡ true
    → has_address ps p.policy ≡ true
unfolding has_policy
has_policy-address [] p h = absurd cc
has_policy-address (x ∷ ps) p h = elim (Bool-cases (policy_eq x p)) [
  | inl t ↦ ground (arith, t)
  | inr n ↦ ground (arith, has_policy-address ps p (ground (arith, h, n)))
]

has_address-keep :
    (f : InstalledPolicy → Bool) (ps : List InstalledPolicy) (a : Address)
    → has_address ps a ≡ false
    → has_address (keep f ps) a ≡ false
has_address-keep f [] a h = refl
has_address-keep f (p ∷ ps) a h = ground (arith, h, has_address-keep f ps a (ground (arith, h)))

pub keep-AddressesDiffer :
    (f : InstalledPolicy → Bool) (ps : List InstalledPolicy)
    → AddressesDiffer ps
    → AddressesDiffer (keep f ps)
keep-AddressesDiffer f [] h = tt
keep-AddressesDiffer f (p ∷ ps) (a, h) = elim (Bool-cases (f p)) [
  | inl t ↦ rw t (has_address-keep f ps p.policy a, keep-AddressesDiffer f ps h)
  | inr n ↦ rw n (keep-AddressesDiffer f ps h)
]

-- With different addresses a policy is the only one at its address.
pub same_address :
    (ds : List InstalledPolicy) (p q : InstalledPolicy)
    → AddressesDiffer ds
    → has_policy ds p ≡ true
    → has_policy ds q ≡ true
    → p.policy ≡ q.policy
    → p ≡ q
unfolding has_policy
same_address [] p q d h k e = absurd cc
same_address (x ∷ ds) p q (a, d) h k e = elim (Bool-cases (policy_eq x p)) [
  | inl t ↦ elim (Bool-cases (policy_eq x q)) [
    | inl u ↦ sym (policy_eq_iff x p t) ∙ policy_eq_iff x q u
    | inr m ↦
        let y = has_policy-address ds q (ground (arith, k, m)) in
        let z : x.policy ≡ q.policy =
          ap (λ (r : InstalledPolicy). r.policy) (policy_eq_iff x p t) ∙ e in
        absurd (ground (arith, a, rw (← z) at y))
  ]
  | inr n ↦ elim (Bool-cases (policy_eq x q)) [
    | inl u ↦
        let y = has_policy-address ds p (ground (arith, h, n)) in
        let z : p.policy ≡ x.policy =
          e ∙ sym (ap (λ (r : InstalledPolicy). r.policy) (policy_eq_iff x q u)) in
        absurd (ground (arith, a, rw z at y))
    | inr m ↦ same_address ds p q d (ground (arith, h, n)) (ground (arith, k, m)) e
  ]
]

without-absent :
    (a : Address) (ps : List InstalledPolicy) → has_address ps a ≡ false → without a ps ≡ ps
without-absent a [] h = refl
without-absent a (p ∷ ps) h =
    let n : p.policy == a ≡ false = ground (arith, h) in
    rw n (ap (λ xs. p ∷ xs) (without-absent a ps (ground (arith, h))))

removals-absent :
    (cs ds : List InstalledPolicy) (a : Address)
    → has_address cs a ≡ false
    → contains (removals cs ds) a ≡ false
unfolding removals
removals-absent [] ds a h = refl
removals-absent (p ∷ cs) ds a h = ground (arith, h, removals-absent cs ds a (ground (arith, h)))

without_all-cons :
    (rs : List Address) (p : InstalledPolicy) (ps : List InstalledPolicy)
    → contains rs p.policy ≡ false
    → without_all rs (p ∷ ps) ≡ p ∷ without_all rs ps
without_all-cons [] p ps h = refl
without_all-cons (a ∷ rs) p ps h =
    let n : p.policy == a ≡ false = ground (arith, h) in
    rw n (without_all-cons rs p (without a ps) (ground (arith, h)))

Leaves-cons :
    (cs ds ps : List InstalledPolicy) (p q : InstalledPolicy)
    → Leaves cs ds ps q
    → Leaves cs ds (p ∷ ps) q
unfolding has_policy
Leaves-cons cs ds ps p q l = record {
  old = l.old;
  dropped = l.dropped;
  held = ground (arith, l.held);
}

Removable-cons :
    (cs ds : List InstalledPolicy) (rs : List Address) (p : InstalledPolicy)
    (ps : List InstalledPolicy)
    → contains rs p.policy ≡ false
    → Removable cs ds rs ps
    → Removable cs ds rs (p ∷ ps)
Removable-cons cs ds [] p ps h r = tt
Removable-cons cs ds (a ∷ rs) p ps h ((q, e, l), r) =
    let n : p.policy == a ≡ false = ground (arith, h) in
    (
      (q, e, Leaves-cons cs ds ps p q l),
      rw n (Removable-cons cs ds rs p (without a ps) (ground (arith, h)) r),
    )

pub has_policy-head :
    (p : InstalledPolicy) (ds : List InstalledPolicy) → has_policy (p ∷ ds) p ≡ true
unfolding has_policy
has_policy-head p ds = ground (arith, ==_self p.policy, ==_self p.params)

-- The removals take away what the new rule lacks, and leave what was added behind.
pub removals-Removable :
    (olds cs ds es : List InstalledPolicy)
    → Within olds cs
    → AddressesDiffer (cs ++ es)
    → Removable olds ds (removals cs ds) (cs ++ es)
      × (without_all (removals cs ds) (cs ++ es) ≡ kept_policies cs ds ++ es)
unfolding removals
removals-Removable olds [] ds es w h = (tt, refl)
removals-Removable olds (p ∷ cs) ds es (o, w) (a, h) =
    let (r, e) = removals-Removable olds cs ds es w h in
    let a' : has_address cs p.policy ≡ false =
      ground (arith, a, has_address-append cs es p.policy) in
    let n = removals-absent cs ds p.policy a' in
    elim (Bool-cases (has_policy ds p)) [
      | inl t ↦ rw t (
        Removable-cons olds ds (removals cs ds) p (cs ++ es) n r,
        without_all-cons (removals cs ds) p (cs ++ es) n ∙ ap (λ xs. p ∷ xs) e,
      )
      | inr m ↦
          let v : without p.policy (p ∷ (cs ++ es)) ≡ cs ++ es =
            rw (==_self p.policy) (without-absent p.policy (cs ++ es) a) in
          let l : Leaves olds ds (p ∷ (cs ++ es)) p = record {
            old = o;
            dropped = m;
            held = has_policy-head p (cs ++ es);
          } in
          rw m (((p, refl, l), rw v r), ap (without_all (removals cs ds)) v ∙ e)
    ]

pub length-removals :
    (cs ds : List InstalledPolicy)
    → length (removals cs ds) + length (kept_policies cs ds) ≡ length cs
unfolding removals
length-removals [] ds = refl
length-removals (p ∷ cs) ds = ground (arith, length-removals cs ds)

pub length-keep :
    (f : InstalledPolicy → Bool) (ps : List InstalledPolicy) → length (keep f ps) ≤ length ps
length-keep f [] = omega arith
length-keep f (p ∷ ps) = ground (arith, length-keep f ps)

pub length-keep-not :
    (f : InstalledPolicy → Bool) (ps : List InstalledPolicy)
    → length (keep f ps) + length (keep (λ p. not (f p)) ps) ≡ length ps
length-keep-not f [] = refl
length-keep-not f (p ∷ ps) = ground (arith, length-keep-not f ps)
