-- ===== src/Program/Rpn/Shape.antt =====
-- Stacks of expressions: what a split and an append do to size, postfix form and meaning.
use mathlib.Core.List.{append_assoc, append-nil}
use perch.Common.{ℕ, zero, suc, ◌+◌, ◌≤◌, ◌≡◌, refl, some, List, ◌∷◌, ◌++◌, arith, true, ap}
use perch.Program.Verdict.{Verdict, and, or, true_v, false_v}
use perch.Program.Rpn.{Op}
use perch.Program.Rpn.Stack.{fold_list}
use perch.Program.Rpn.Tree.{
  Forest, nil, cons, size, flatten_forest, split_at, are_exprs, verdicts, denote, denote_all,
  denote_any,
}

abbrev pub append : Forest → Forest → Forest
append nil h = h
append (cons t g) h = cons t (append g h)

pub flatten-append :
    (g h : Forest) → flatten_forest (append g h) ≡ flatten_forest h ++ flatten_forest g
unfolding flatten_forest
flatten-append nil h = rw append-nil
flatten-append (cons t g) h = rw (flatten-append g h, append_assoc)

pub verdicts-append :
    (leaves : Op → Verdict) (g h : Forest)
    → verdicts leaves (append g h) ≡ verdicts leaves g ++ verdicts leaves h
verdicts-append leaves nil h = refl
verdicts-append leaves (cons t g) h =
    ap (λ (vs : List Verdict). denote leaves t ∷ vs) (verdicts-append leaves g h)

pub are_exprs-append :
    (g h : Forest) → are_exprs (append g h) ≡ true → (are_exprs g ≡ true) × (are_exprs h ≡ true)
unfolding are_exprs
are_exprs-append nil h e = (refl, e)
are_exprs-append (cons t g) h e = ground (arith, are_exprs-append g h)

-- Splitting a stack with enough entries succeeds, and loses none.
pub split_at_total :
    (n : ℕ) (f : Forest)
    → n ≤ size f
    → (g : Forest) × (h : Forest) × (split_at n f ≡ some (g, h))
      × (f ≡ append g h)
      × (size g ≡ n)
      × (size h + n ≡ size f)
unfolding split_at
split_at_total zero f h = (nil, f, refl, refl, refl, omega arith)
split_at_total (suc n) nil h = absurd (omega arith)
split_at_total (suc n) (cons t f) h =
    let (g, r, e, p, q, s) = split_at_total n f (omega arith) in
    (cons t g, r, rw e refl, ap (cons t) p, ap suc q, omega arith)

and_unit : (v : Verdict) → and v true_v ≡ v
unfolding and
and_unit v = ground arith

and_assoc : (a b c : Verdict) → and (and a b) c ≡ and a (and b c)
unfolding and
and_assoc a b c = ground arith

or_unit : (v : Verdict) → or v false_v ≡ v
unfolding or
or_unit v = ground arith

or_assoc : (a b c : Verdict) → or (or a b) c ≡ or a (or b c)
unfolding or
or_assoc a b c = ground arith

-- The accumulating folds of the evaluator are the plain conjunction and disjunction.
pub fold-and :
    (leaves : Op → Verdict) (f : Forest) (v : Verdict)
    → fold_list and v (verdicts leaves f) ≡ and v (denote_all leaves f)
unfolding denote_all
fold-and leaves nil v = rw and_unit
fold-and leaves (cons t f) v = rw (fold-and leaves f, and_assoc)

pub fold-or :
    (leaves : Op → Verdict) (f : Forest) (v : Verdict)
    → fold_list or v (verdicts leaves f) ≡ or v (denote_any leaves f)
unfolding denote_any
fold-or leaves nil v = rw or_unit
fold-or leaves (cons t f) v = rw (fold-or leaves f, or_assoc)

pub and_true : (v : Verdict) → and true_v v ≡ v
unfolding and
and_true v = ground arith

pub or_false : (v : Verdict) → or false_v v ≡ v
unfolding or
or_false v = ground arith
