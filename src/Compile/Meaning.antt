-- ===== src/Compile/Meaning.antt =====
-- crates/perch-compile/src/lib.rs: what the program of a rule means, in the document's own terms.
use perch.Common.{
  ℕ, ◌≤◌, ◌<◌, ◌≡◌, refl, sym, ◌∙◌, ap, ◌↔◌, ◌⊎◌, inl, inr, Address, Str, Symbol, Bool, true,
  Option, none, some, List, [], ◌∷◌, ◌++◌, arith, length, list_eq, list_eq→eq, list_eq_self, ok,
  ok_or, ok_or-ok, >>=-eq-ok, Result-cases, Bool-cases, ◌==◌, ==_iff, Option-cases,
}
use perch.Program.Verdict.{true_v, unknown, from_bool}
use perch.Program.Leaf.{
  Env, EvalInputs, Context, create_contract_host_fn, create_contract_with_ctor_host_fn,
  ContractContext, arg, decide_arg, max_str_arg_len, arg_addr_eq, arg_addr_is_self, arg_u32_eq,
  arg_str_in, arg_str_prefix, fn_in, any_symbol, min_signers, str_bytes, str_head,
}
use perch.Program.Leaf as Leaf
use perch.Program.Leaf.Strings.{Among, arg_str_in_iff, arg_str_prefix_iff}
use perch.Program.Rpn.{
  Op, fn_in_op, min_signers_op, arg_addr_is_self_op, arg_addr_eq_op, arg_u32_eq_op, arg_str_in_op,
  arg_str_prefix_op, eval_leaf, eval, RpnProgram, validate,
}
use perch.Program.Rpn.Tree.{is_leaf}
use perch.Program.Rpn.Leaves.{
  are_leaves, AllTrue, conjunction_of, validate-leaves, eval-conjunction,
}
use perch.Document.{
  ArgPred, is_self, address_eq, string_in, string_prefix, u32_eq, ArgConstraint, Rule,
}
use perch.Compile.{
  Sdk, trapped, symbols, lower_functions, lower_arg_pred, lower_preds, lower_args, build_program,
  checked, at_least_one,
}

decide_iff :
    {A : Type 0} (o : Option A) (test : A → Bool) (want : A)
    → ((a : A) → (test a ≡ true) ↔ (a ≡ want))
    → (decide_arg o test ≡ true_v) ↔ (o ≡ some want)
unfolding from_bool
decide_iff (some a) test want h = elim (Bool-cases (test a)) [
  | inl t ↦ (λ e. ap some ((h a).0 t), λ e. rw t)
  | inr f ↦ (λ e. absurd (ground (arith, e, f)), λ e. absurd (ground (arith, e, f, (h a).1)))
]
decide_iff none test want h = (λ e. absurd cc, λ e. absurd cc)

module _ (sdk : Sdk) where
  -- A function list names a symbol.
  abbrev pub Named : Symbol → List Str → Type 0
  Named name [] = ⊥
  Named name (f ∷ fs) = (sdk.new_symbol f ≡ some name) ⊎ Named name fs

  pub symbols_iff :
      (fs : List Str) (syms : List Symbol) (name : Symbol)
      → symbols sdk fs ≡ ok syms
      → (any_symbol syms name ≡ true) ↔ Named name fs
  unfolding symbols any_symbol
  symbols_iff [] syms name h =
      let e : ◌≡◌ {A = List Symbol} [] syms = cc in rw (← e) (λ t. absurd cc, λ n. absurd n)
  symbols_iff (f ∷ fs) syms name h =
      let (s, es, k) = >>=-eq-ok (ok_or (sdk.new_symbol f) trapped) _ h in
      let (rest, er, q) = >>=-eq-ok (symbols sdk fs) _ k in
      let e : s ∷ rest ≡ syms = cc in
      let g = ok_or-ok (sdk.new_symbol f) trapped s es in
      let (there, back) = symbols_iff fs rest name er in
      rw (← e) (elim (Bool-cases (list_eq s name)) [
        | inl t ↦ (λ u. inl (g ∙ ap some (list_eq→eq s name t)), λ u. rw t)
        | inr n ↦ (
          λ u. inr (there (ground (arith, u, n))),
          λ u. elim u [
            | inl p ↦
                let q : s ≡ name = cc in
                let t : list_eq s name ≡ true = rw (← q) (list_eq_self s) in
                absurd (ground (arith, n, t))
            | inr m ↦ rw n (back m)
          ],
        )
      ])

  pub checked-ok :
      (name : Str) (program out : RpnProgram)
      → checked sdk name program ≡ ok out
      → (validate program ≡ ok tt) × (program ≡ out)
  checked-ok name program out h = elim (Result-cases (validate program)) [
    | inl (u, e) ↦ (e, ground (arith, h, e))
    | inr (x, e) ↦ absurd (ground (arith, h, e))
  ]

module _ (sdk : Sdk) (env : Env) (inputs : EvalInputs) where
  -- What a predicate asks of the argument at an index.
  abbrev pub Satisfies : ℕ → ArgPred → Type 0
  Satisfies i is_self = arg env.host.as_address inputs.context i ≡ some inputs.self_addr
  Satisfies i (address_eq p) =
      (a : Address) × (sdk.address_from_str p.address ≡ some a)
      × (arg env.host.as_address inputs.context i ≡ some a)
  Satisfies i (u32_eq p) = arg env.host.as_u32 inputs.context i ≡ some p.value
  Satisfies i (string_in p) =
      (s : Str) × (arg env.host.as_string inputs.context i ≡ some s)
      × (length s ≤ max_str_arg_len)
      × Among s p.values
  Satisfies i (string_prefix p) =
      (length p.prefix ≤ max_str_arg_len)
      × ((s : Str) × (r : Str) × (arg env.host.as_string inputs.context i ≡ some s)
          × (s ≡ p.prefix ++ r))

  abbrev pub SatisfyAll : List ArgConstraint → Type 0
  SatisfyAll [] = Unit
  SatisfyAll (c ∷ cs) = Satisfies c.index c.pred × SatisfyAll cs

  abbrev pub ArgsAllowed : Option (List ArgConstraint) → Type 0
  ArgsAllowed none = Unit
  ArgsAllowed (some cs) = SatisfyAll cs

  abbrev pub FunctionAllowed : Option (List Str) → Type 0
  FunctionAllowed none = Unit
  FunctionAllowed (some fs) =
      (c : ContractContext) × (inputs.context ≡ Leaf.contract c) × Named sdk c.fn_name fs

  -- A rule with this signer floor lets the call pass.
  abbrev pub Allows : Rule → ℕ → Type 0
  Allows rule floor =
      (0 < inputs.signer_count)
      × (floor ≤ inputs.signer_count)
      × FunctionAllowed rule.functions
      × ArgsAllowed rule.args

  string_in_iff :
      (i : ℕ) (set : List Str)
      → (arg_str_in env inputs i set ≡ true_v) ↔ (
          (s : Str) × (arg env.host.as_string inputs.context i ≡ some s)
          × (length s ≤ max_str_arg_len)
          × Among s set)
  unfolding arg_str_in
  string_in_iff i set = elim (Option-cases (arg env.host.as_string inputs.context i)) [
    | inl n ↦ (λ h. absurd (ground (arith, n)), λ (s, e, l, m). absurd (ground (arith, n, e)))
    | inr (s, e) ↦
        let (there, back) = (arg_str_in_iff env inputs i set s e).0 in
        (
          λ h. let (l, m) = there h in (s, e, l, m),
          λ (t, f, l, m). let q : t ≡ s = cc in back (rw (← q) l, rw (← q) m),
        )
  ]

  string_prefix_iff :
      (i : ℕ) (prefix : Str)
      → (arg_str_prefix env inputs i prefix ≡ true_v) ↔ (
          (length prefix ≤ max_str_arg_len)
          × ((s : Str) × (r : Str) × (arg env.host.as_string inputs.context i ≡ some s)
              × (s ≡ prefix ++ r)))
  unfolding arg_str_prefix str_bytes
  string_prefix_iff i prefix = elim (Option-cases (arg env.host.as_string inputs.context i)) [
    | inl n ↦ (λ h. absurd (ground (arith, n)), λ (l, (s, r, e, q)). absurd (ground (arith, n, e)))
    | inr (s, e) ↦ (
      λ h.
          let l : length prefix ≤ max_str_arg_len = ground (arith, e) in
          let (r, q) = (arg_str_prefix_iff env inputs i prefix s e l).0.0 h in (l, (s, r, e, q)),
      λ (l, (t, r, f, q)).
          let p : t ≡ s = cc in (arg_str_prefix_iff env inputs i prefix s e l).0.1 (r, sym p ∙ q),
    )
  ]

  -- A lowered predicate is a leaf, and true exactly when the predicate is satisfied.
  lower_arg_pred_iff :
      (i : ℕ) (pred : ArgPred) (op : Op)
      → lower_arg_pred sdk i pred ≡ ok op
      → (is_leaf op ≡ true) × ((eval_leaf env inputs op ≡ true_v) ↔ Satisfies i pred)
  unfolding lower_arg_pred eval_leaf arg_addr_is_self arg_addr_eq arg_u32_eq
  lower_arg_pred_iff i is_self op h =
      let e : arg_addr_is_self_op i ≡ op = cc in
      rw (← e) (refl, decide_iff _ _ inputs.self_addr (λ a. ==_iff a inputs.self_addr))
  lower_arg_pred_iff i (address_eq p) op h =
      let (a, ea, q) = >>=-eq-ok (ok_or (sdk.address_from_str p.address) trapped) _ h in
      let e : arg_addr_eq_op i a ≡ op = cc in
      let f = ok_or-ok (sdk.address_from_str p.address) trapped a ea in
      let (there, back) =
        decide_iff (arg env.host.as_address inputs.context i) (λ b. b == a) a (λ b. ==_iff b a) in
      rw (← e) (refl, (λ t. (a, f, there t), λ (b, g, t). back (t ∙ (sym g ∙ f))))
  lower_arg_pred_iff i (u32_eq p) op h =
      let e : arg_u32_eq_op i p.value ≡ op = cc in
      rw (← e) (refl, decide_iff _ _ p.value (λ a. ==_iff a p.value))
  lower_arg_pred_iff i (string_in p) op h =
      let e : arg_str_in_op i p.values ≡ op = cc in rw (← e) (refl, string_in_iff i p.values)
  lower_arg_pred_iff i (string_prefix p) op h =
      let e : arg_str_prefix_op i p.prefix ≡ op = cc in
      rw (← e) (refl, string_prefix_iff i p.prefix)

  lower_preds_iff :
      (cs : List ArgConstraint) (ops : List Op)
      → lower_preds sdk cs ≡ ok ops
      → (are_leaves ops ≡ true) × (AllTrue env inputs ops ↔ SatisfyAll cs)
  unfolding lower_preds
  lower_preds_iff [] ops h =
      let e : ◌≡◌ {A = List Op} [] ops = cc in rw (← e) (refl, (λ u. tt, λ u. tt))
  lower_preds_iff (c ∷ cs) ops h =
      let (op, eo, k) = >>=-eq-ok (lower_arg_pred sdk c.index c.pred) _ h in
      let (rest, er, q) = >>=-eq-ok (lower_preds sdk cs) _ k in
      let e : op ∷ rest ≡ ops = cc in
      let (l, (there, back)) = lower_arg_pred_iff c.index c.pred op eo in
      let (ls, (there', back')) = lower_preds_iff cs rest er in
      rw (← e) (ground (arith, l, ls), (λ (a, b). (there a, there' b), λ (a, b). (back a, back' b)))

  lower_args_iff :
      (args : Option (List ArgConstraint)) (ops : List Op)
      → lower_args sdk args ≡ ok ops
      → (are_leaves ops ≡ true) × (AllTrue env inputs ops ↔ ArgsAllowed args)
  unfolding lower_args
  lower_args_iff none ops h =
      let e : ◌≡◌ {A = List Op} [] ops = cc in rw (← e) (refl, (λ u. tt, λ u. tt))
  lower_args_iff (some cs) ops h = lower_preds_iff cs ops h

  Context-cases :
      (context : Context)
      → ((c : ContractContext) × (context ≡ Leaf.contract c))
        ⊎ (((c : ContractContext) → context ≡ Leaf.contract c → ⊥)
            × ((syms : List Symbol) → fn_in (record inputs { context = context }) syms ≡ unknown))
  unfolding fn_in
  Context-cases (Leaf.contract c) = inl (c, refl)
  Context-cases create_contract_host_fn = inr (λ c e. cc, λ s. refl)
  Context-cases create_contract_with_ctor_host_fn = inr (λ c e. cc, λ s. refl)

  fn_in_iff :
      (fs : List Str) (syms : List Symbol)
      → symbols sdk fs ≡ ok syms
      → (fn_in inputs syms ≡ true_v)
        ↔ ((c : ContractContext) × (inputs.context ≡ Leaf.contract c) × Named sdk c.fn_name fs)
  unfolding fn_in from_bool
  fn_in_iff fs syms es = elim (Context-cases inputs.context) [
    | inl (c, e) ↦
        let (there, back) = symbols_iff sdk fs syms c.fn_name es in
        (
          λ h. (c, e, there (ground (arith, h, e))),
          λ (d, f, n). let q : d ≡ c = cc in ground (arith, e, back (rw q at n)),
        )
    | inr (no_call, u) ↦
        (λ h. absurd (ground (arith, h, u syms)), λ (d, f, n). absurd (no_call d f))
  ]

  lower_functions_iff :
      (funcs : Option (List Str)) (ops : List Op)
      → lower_functions sdk funcs ≡ ok ops
      → (are_leaves ops ≡ true) × (AllTrue env inputs ops ↔ FunctionAllowed funcs)
  unfolding lower_functions eval_leaf
  lower_functions_iff none ops h =
      let e : ◌≡◌ {A = List Op} [] ops = cc in rw (← e) (refl, (λ u. tt, λ u. tt))
  lower_functions_iff (some fs) ops h =
      let (syms, es, q) = >>=-eq-ok (symbols sdk fs) _ h in
      let e : fn_in_op syms ∷ [] ≡ ops = cc in
      rw (← e) (refl, (λ (a, u). (fn_in_iff fs syms es).0 a, λ n. ((fn_in_iff fs syms es).1 n, tt)))

  append_iff :
      (xs ys : List Op)
      → (are_leaves xs ≡ true)
      → (are_leaves ys ≡ true)
      → (are_leaves (xs ++ ys) ≡ true)
        × (AllTrue env inputs (xs ++ ys) ↔ (AllTrue env inputs xs × AllTrue env inputs ys))
  append_iff [] ys l k = (k, (λ h. (tt, h), λ (_, h). h))
  append_iff (x ∷ xs) ys l k =
      let (m, (there, back)) = append_iff xs ys (ground (arith, l)) k in
      (
        ground (arith, l, m),
        (λ (e, r). let (a, b) = there r in ((e, a), b), λ ((e, a), b). (e, back (a, b))),
      )

  floor_iff :
      (floor : ℕ)
      → (min_signers inputs (at_least_one sdk floor) ≡ true_v)
        ↔ ((0 < inputs.signer_count) × (floor ≤ inputs.signer_count))
  unfolding min_signers from_bool
  floor_iff floor = (λ h. ground arith, λ (a, b). ground arith)

  -- The program that is built for a rule passes validation,
  -- and it lets a call pass exactly when the rule with this signer floor does: at least
  -- one signer and the floor, a named function, and every argument as its predicate asks.
  pub build_program-Allows :
      (rule : Rule) (floor : ℕ) (program : RpnProgram)
      → build_program sdk rule floor ≡ ok program
      → (validate program ≡ ok tt) × ((eval env program inputs ≡ true_v) ↔ Allows rule floor)
  unfolding build_program eval_leaf
  build_program-Allows rule floor program h =
      let (funcs, ef, k) = >>=-eq-ok (lower_functions sdk rule.functions) _ h in
      let (preds, ep, q) = >>=-eq-ok (lower_args sdk rule.args) _ k in
      let (lf, (there_f, back_f)) = lower_functions_iff rule.functions funcs ef in
      let (lp, (there_p, back_p)) = lower_args_iff rule.args preds ep in
      let (la, (there, back)) = append_iff funcs preds lf lp in
      let leaves = min_signers_op (at_least_one sdk floor) ∷ (funcs ++ preds) in
      let (v, e) = checked-ok sdk rule.name (conjunction_of leaves) program q in
      let b = validate-leaves leaves la v in
      let (there_c, back_c) = eval-conjunction env inputs leaves la (omega arith) b in
      rw (← e) (
        v,
        (
          λ t.
              let (m, r) = there_c t in
              let (p0, p1) = (floor_iff floor).0 m in
              let (rf, rp) = there r in (p0, p1, there_f rf, there_p rp),
          λ (p0, p1, f, a). back_c ((floor_iff floor).1 (p0, p1), back (back_f f, back_p a)),
        ),
      )
