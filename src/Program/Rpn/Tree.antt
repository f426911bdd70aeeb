-- ===== src/Program/Rpn/Tree.antt =====
-- The expression that a postfix program spells, its meaning, and its postfix form.
use perch.Common.{
  ℕ, zero, suc, ◌≡◌, refl, Bool, true, false, Option, none, some, List, [], ◌∷◌, ◌++◌, ap, ◌==◌,
  length, not, ◌&&◌,
}
use perch.Program.Verdict.{Verdict, false_v, true_v, and, or, negate}
use perch.Program.Rpn.{Op, all_op, any_op, not_op}

mutual
  pub data Tree : Type 0 where
    leaf : Op → Tree
    negation : Tree → Tree
    conjunction disjunction : Forest → Tree

  -- The operands of a composite, or a whole stack of expressions, the top first.
  pub data Forest : Type 0 where
    nil : Forest
    cons : Tree → Forest → Forest

abbrev pub size : Forest → ℕ
size nil = 0
size (cons t f) = suc (size f)

unfoldable mutual
  pub flatten : Tree → List Op
  flatten (leaf op) = op ∷ []
  flatten (negation t) = flatten t ++ not_op ∷ []
  flatten (conjunction f) = flatten_forest f ++ all_op (size f) ∷ []
  flatten (disjunction f) = flatten_forest f ++ any_op (size f) ∷ []

  pub flatten_forest : Forest → List Op
  flatten_forest nil = []
  flatten_forest (cons t f) = flatten_forest f ++ flatten t

unfoldable mutual
  pub denote : (Op → Verdict) → Tree → Verdict
  denote leaves (leaf op) = leaves op
  denote leaves (negation t) = negate (denote leaves t)
  denote leaves (conjunction f) = denote_all leaves f
  denote leaves (disjunction f) = denote_any leaves f

  pub denote_all : (Op → Verdict) → Forest → Verdict
  denote_all leaves nil = true_v
  denote_all leaves (cons t f) = and (denote leaves t) (denote_all leaves f)

  pub denote_any : (Op → Verdict) → Forest → Verdict
  denote_any leaves nil = false_v
  denote_any leaves (cons t f) = or (denote leaves t) (denote_any leaves f)

-- A leaf op pops nothing.
abbrev pub is_leaf : Op → Bool
is_leaf (all_op n) = false
is_leaf (any_op n) = false
is_leaf not_op = false
is_leaf _ = true

-- The leaves are leaf ops, and no composite is empty.
unfoldable mutual
  pub is_expr : Tree → Bool
  is_expr (leaf op) = is_leaf op
  is_expr (negation t) = is_expr t
  is_expr (conjunction f) = not (size f == 0) && are_exprs f
  is_expr (disjunction f) = not (size f == 0) && are_exprs f

  pub are_exprs : Forest → Bool
  are_exprs nil = true
  are_exprs (cons t f) = is_expr t && are_exprs f

abbrev pub verdicts : (Op → Verdict) → Forest → List Verdict
verdicts leaves nil = []
verdicts leaves (cons t f) = denote leaves t ∷ verdicts leaves f

pub length-verdicts : (leaves : Op → Verdict) (f : Forest) → length (verdicts leaves f) ≡ size f
length-verdicts leaves nil = refl
length-verdicts leaves (cons t f) = ap suc (length-verdicts leaves f)

-- The first `n` expressions of a stack, and the others.
unfoldable pub split_at : ℕ → Forest → Option (Forest × Forest)
split_at zero f = some (nil, f)
split_at (suc n) nil = none
split_at (suc n) (cons t f) = elim (split_at n f) [ none ↦ none | some (g, h) ↦ some (cons t g, h) ]
