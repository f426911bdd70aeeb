-- ===== src/Compile/Analysis/Reach.antt =====
-- crates/perch-compile/src/analysis.rs: the functions that a compiled rule can authorize.
use mathlib.Core.List.{append_assoc}
use perch.Common.{
  ℕ, ◌≡◌, refl, sym, ◌∙◌, ◌↔◌, inl, inr, Str, Symbol, Bool, true, false, ◌||◌, Option, none, some,
  List, [], ◌∷◌, ◌++◌, arith, length, list_eq, list_eq→eq, ok, ok_or, >>=-eq-ok, Bool-cases,
}
use perch.Program.Leaf.{any_symbol}
use perch.Program.Rpn.{
  Op, all_op, fn_in_op, min_signers_op, arg_addr_is_self_op, arg_addr_eq_op, arg_u32_eq_op,
  arg_str_in_op, arg_str_prefix_op, RpnProgram,
}
use perch.Program.Rpn.Leaves.{conjunction_of}
use perch.Document.{
  ArgPred, is_self, address_eq, string_in, string_prefix, u32_eq, ArgConstraint, Rule,
}
use perch.Compile.{
  Sdk, symbols, lower_functions, lower_arg_pred, lower_preds, lower_args, build_program,
  at_least_one, trapped,
}
use perch.Compile.Meaning.{Named, symbols_iff, checked-ok}
use perch.Compile.Analysis.{FnSet, any_fn, only, has_symbol, push_new_symbols, scan_functions}

-- The set covers the function.
abbrev pub Covers : FnSet → Symbol → Type 0
Covers any_fn name = Unit
Covers (only fns) name = has_symbol fns name ≡ true

-- A function list of the document allows the function.
abbrev pub Lists : Sdk → Symbol → Option (List Str) → Type 0
Lists sdk name none = Unit
Lists sdk name (some fs) = Named sdk name fs

has_symbol-append :
    (fns : List Symbol) (s name : Symbol)
    → has_symbol (fns ++ s ∷ []) name ≡ (has_symbol fns name || list_eq s name)
unfolding has_symbol
has_symbol-append [] s name = ground arith
has_symbol-append (f ∷ fns) s name = ground (arith, has_symbol-append fns s name)

has_symbol-eq :
    (fns : List Symbol) (s name : Symbol)
    → has_symbol fns s ≡ true
    → list_eq s name ≡ true
    → has_symbol fns name ≡ true
has_symbol-eq fns s name h e = rw (list_eq→eq s name e) at h

has_symbol-push :
    (fns set : List Symbol) (name : Symbol)
    → has_symbol (push_new_symbols fns set) name ≡ (has_symbol fns name || any_symbol set name)
unfolding push_new_symbols any_symbol
has_symbol-push fns [] name = ground arith
has_symbol-push fns (s ∷ set) name = elim (Bool-cases (has_symbol fns s)) [
  | inl t ↦ rw t (has_symbol-push fns set name ∙ ground (arith, has_symbol-eq fns s name t))
  | inr n ↦
      rw n (has_symbol-push (fns ++ s ∷ []) set name ∙ ground (arith, has_symbol-append fns s name))
]

module _ (sdk : Sdk) where
  scan-pred :
      (i : ℕ) (pred : ArgPred) (op : Op) (ops : List Op) (fns : List Symbol) (saw : Bool)
      → lower_arg_pred sdk i pred ≡ ok op
      → scan_functions (op ∷ ops) fns saw ≡ scan_functions ops fns saw
  unfolding lower_arg_pred scan_functions
  scan-pred i is_self op ops fns saw h = let e : arg_addr_is_self_op i ≡ op = cc in rw (← e) refl
  scan-pred i (address_eq p) op ops fns saw h =
      let (a, ea, q) = >>=-eq-ok (ok_or (sdk.address_from_str p.address) trapped) _ h in
      let e : arg_addr_eq_op i a ≡ op = cc in rw (← e) refl
  scan-pred i (u32_eq p) op ops fns saw h =
      let e : arg_u32_eq_op i p.value ≡ op = cc in rw (← e) refl
  scan-pred i (string_in p) op ops fns saw h =
      let e : arg_str_in_op i p.values ≡ op = cc in rw (← e) refl
  scan-pred i (string_prefix p) op ops fns saw h =
      let e : arg_str_prefix_op i p.prefix ≡ op = cc in rw (← e) refl

  scan-preds :
      (cs : List ArgConstraint) (ops rest : List Op) (fns : List Symbol) (saw : Bool)
      → lower_preds sdk cs ≡ ok ops
      → scan_functions (ops ++ rest) fns saw ≡ scan_functions rest fns saw
  unfolding lower_preds
  scan-preds [] ops rest fns saw h = let e : ◌≡◌ {A = List Op} [] ops = cc in rw (← e) refl
  scan-preds (c ∷ cs) ops rest fns saw h =
      let (op, eo, k) = >>=-eq-ok (lower_arg_pred sdk c.index c.pred) _ h in
      let (os, er, q) = >>=-eq-ok (lower_preds sdk cs) _ k in
      let e : op ∷ os ≡ ops = cc in
      rw (← e)
        (scan-pred c.index c.pred op (os ++ rest) fns saw eo ∙ scan-preds cs os rest fns saw er)

  scan-args :
      (args : Option (List ArgConstraint)) (ops rest : List Op) (fns : List Symbol) (saw : Bool)
      → lower_args sdk args ≡ ok ops
      → scan_functions (ops ++ rest) fns saw ≡ scan_functions rest fns saw
  unfolding lower_args
  scan-args none ops rest fns saw h = let e : ◌≡◌ {A = List Op} [] ops = cc in rw (← e) refl
  scan-args (some cs) ops rest fns saw h = scan-preds cs ops rest fns saw h

  Covers-functions :
      (funcs : Option (List Str)) (fops aops : List Op) (n : ℕ) (args : Option (List ArgConstraint))
      (name : Symbol)
      → lower_functions sdk funcs ≡ ok fops
      → lower_args sdk args ≡ ok aops
      → Covers (scan_functions (fops ++ (aops ++ all_op n ∷ [])) [] false) name
        ↔ Lists sdk name funcs
  unfolding lower_functions scan_functions any_symbol has_symbol
  Covers-functions none fops aops n args name h k =
      let e : ◌≡◌ {A = List Op} [] fops = cc in
      rw (← e, scan-args args aops (all_op n ∷ []) [] false k) (λ u. tt, λ u. tt)
  Covers-functions (some fs) fops aops n args name h k =
      let (syms, es, q) = >>=-eq-ok (symbols sdk fs) _ h in
      let e : fn_in_op syms ∷ [] ≡ fops = cc in
      let (there, back) = symbols_iff sdk fs syms name es in
      let p : has_symbol (push_new_symbols [] syms) name ≡ any_symbol syms name =
        has_symbol-push [] syms name in
      rw (← e, scan-args args aops (all_op n ∷ []) (push_new_symbols [] syms) true k)
        (λ c. there (sym p ∙ c), λ l. p ∙ back l)

  -- The functions that the analysis finds in a built program are those that the rule lists.
  pub build_program-Covers :
      (rule : Rule) (floor : ℕ) (program : RpnProgram) (name : Symbol)
      → build_program sdk rule floor ≡ ok program
      → Covers (scan_functions program.ops [] false) name ↔ Lists sdk name rule.functions
  unfolding build_program scan_functions
  build_program-Covers rule floor program name h =
      let (funcs, ef, k) = >>=-eq-ok (lower_functions sdk rule.functions) _ h in
      let (preds, ep, q) = >>=-eq-ok (lower_args sdk rule.args) _ k in
      let leaves = min_signers_op (at_least_one sdk floor) ∷ (funcs ++ preds) in
      let (v, e) = checked-ok sdk rule.name (conjunction_of leaves) program q in
      rw (← e, append_assoc)
        (Covers-functions rule.functions funcs preds (length leaves) rule.args name ef ep)
